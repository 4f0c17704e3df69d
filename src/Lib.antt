-- ===== src/Lib.antt =====
-- A terminal chat system: a chat server with rooms, an authentication server that issues tokens,
-- and a client of both. The client logs in at the authentication server, sends the token in its
-- first message to the chat server, and from then on every message carries the token, which the
-- chat server validates at the authentication server and caches.
--
-- The files and what they model, by paths from the repository's root:
--
-- Prelude and its children: bytes and texts (std::string as a list of bytes), std::map as a list
-- sorted by key, std::istringstream as functions on texts. They model the standard library as far
-- as the code calls it.
--
-- Json: nlohmann::json, which the code only calls, as a record of operations (JsonLib) and a
-- record of the documented laws that some theorems need (JsonLaws). Json/Sample is a value type
-- with a codec at which the laws hold; the examples use it. An exception of the library is none.
--
-- Message: lib/common/include/common/NetworkMessage.h. Header, Body and Message are the structs;
-- serialize, deserialize and the create_ functions have the names of the source. The text of
-- get_timestamp is an argument.
--
-- Queue: include/ThreadSafeQueue.h. Every method holds the mutex throughout and is one step on
-- the record Queue. A wait is an outcome of its own; Queue/Fifo has the interleavings of calls as
-- lists.
--
-- Server/Socket: src/server/ServerSocket.cpp, with the descriptors that it closes as lists.
-- Server/Room: src/server/ChatRoom.cpp. A call of send is an entry of the list of sends, in
-- order. Server/Manager: the shared state and the operations of src/server/ClientManager.cpp; a
-- shared_ptr to a room is its key in chat_rooms. Server/Thread: the three handlers of the same
-- file, each cut at its calls of recv, so that a step runs from one wake-up of a thread to the
-- next; World has the server with all its threads, stepping in any order. The locks that a step
-- takes are not told apart: a step is atomic. What a recv of the chat's client or server leaves in
-- its buffer of 4096 bytes is given; where a theorem has one side's message there, the message has
-- arrived whole, alone and within the buffer.
--
-- Auth/Client, Auth/Manager, Auth/Server, Auth/Listener and Auth/Repository: lib/auth but for the
-- users in a file. The exchange with the other side is a function from a request to the bytes of
-- its answer that have arrived when the client calls recv; either side's one recv takes at most
-- 4095 of them (read_buffer). Auth/Server/RoundTrip closes it with the server's handle_client. The clock (in nanoseconds), the
-- random bytes and std::hash are arguments. Numbers of the clock are natural numbers without a
-- bound, as the code's do not wrap within its lifetime.
--
-- Client: src/client/NetworkManager.cpp (Client/Network), src/client/ApplicationState.cpp
-- (Client/State), src/client/ApplicationManager.cpp (Client/Application), include/UICommand.h
-- (Client/Command). The results of the system's calls are arguments. Its loop with fuel is
-- send_data: it takes one message in each round, so that the number of queued messages and one
-- more round are enough, which the theorem about it shows by the queue being empty afterwards.
--
-- Wire: the client's events at the server, the one's bytes handled by the other.
--
-- Ui: the widgets of lib/ui. A widget is a record of its base class's part and its own; a method
-- is a function of it, and an event that it does not handle answers none. Positions that the code
-- keeps in a size_t wrap around (sub_size); an int that is -1 for no selection is none. Widths
-- and heights are natural numbers, since the code gives widgets bounds within the screen.
-- Ui/Window keeps its children by identity and has what it asks of them as an interface
-- (Children). Ui/Wrap has the loop over words that two widgets share. What a widget draws is a list
-- of calls of ncurses in their order (Ui/Paint; `render` in Ui/Menu/Draw, Ui/TextInput/Draw,
-- Ui/Label, Ui/ListBox and Ui/MessageBox/Draw): a call that only formats, as mvwprintw, stands with
-- the text that its format makes, and an int that may be negative as its bit pattern. The texts
-- hold no zero bytes, at which a C string would end. Ui/Window/Pane is the rest of ui::Window, the
-- window of ncurses that it keeps; windows of ncurses are numbers there, which `newwin` answers.
--
-- Terminal: src/client/UIManager.cpp. Terminal/Screens has the three screens as they are set up
-- and the callbacks they install, Terminal/Commands the commands from the application,
-- Terminal/Keys the keys, the dialog and a round of the loop. The widgets that are children of
-- the main window are named by Part, and Screens fills the interface of Ui/Window with them. The
-- loop over the commands has fuel: it takes one in each round, and one more round than there are
-- commands finds the queue empty, which the theorem about it shows by the empty queue that it
-- leaves. The digits of a number have fuel one more than the number, which is more than its digits
-- (Prelude/Text). What a key dialog reads is a list of keys. Terminal/Draw has the calls of ncurses
-- of a round, each with the window that it is made for; every window that ncurses is asked for is
-- taken to be made, but for that of a message box.
--
-- Process: src/client/client.cpp. Process is the four queues with the three managers that refer to
-- them; a step is one round of a thread's loop (ui_step, application_step, network_step), and
-- new_process, interrupt and shut_down are main and its signal handler. The threads meet only at
-- the queues, whose methods hold a mutex, and at the network manager; a round that the other
-- threads interrupt is not told apart from rounds in turn.
--
-- Auth/FileRepository: lib/auth/src/FileUserRepository.cpp. The contents of the file are a field
-- of the state; the order in which std::unordered_map is walked is a parameter with the law that
-- each entry is met once (Walks).
--
-- Not modelled: what ncurses makes of its calls; the drawing of the dialog, the colours that
-- init_ncurses sets up, and the logs written to /tmp; terminals so small that a width or height would be
-- negative; show_error_popup and the handlers per screen that are declared only; load_config, the
-- servers' main functions and the accept loop of the authentication server; request_client_name and parse_room_list, which
-- nothing calls; archive/ and src/ChatRoom.cpp, which are not built or a copy; std::exception other
-- than json's, memory, and partial sends. Texts handed to the json library are taken to be valid
-- UTF-8.
pub mod Prelude
pub mod Json
pub mod Message
pub mod Queue
pub mod Server
pub mod Auth
pub mod Client
pub mod Ui
pub mod Terminal
pub mod Process
pub mod Wire
