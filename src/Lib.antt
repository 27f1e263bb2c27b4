-- ===== src/Lib.antt =====
-- The Linux shell of DeepSeek Harness, the native window around the dsh web server, and the JSON scanner
-- and other parts of the Windows shell.
--
-- The shell starts `dsh web` (linux/src/server_manager.cpp), which needs a Node runtime
-- (linux/src/node_runtime_manager.cpp), and shows it in a window (linux/src/main_window.cpp). Its
-- settings come from the environment and the command line (linux/src/settings.cpp). A dialog manages
-- the plugins of the profile (linux/src/plugins_manager.cpp), whose package.json it reads and rewrites
-- with a JSON codec of its own (linux/src/json.cpp). The update check (linux/src/update_manager.cpp)
-- compares versions with linux/src/util.cpp.
--
-- Files:
--   Base/         bytes and texts, list lemmas, decimal numbers, and Outcome, the result of a run on
--                 fuel
--   Json/         linux/src/json.cpp: Value and its accessors (Value), the parser (Scan, Parser), the
--                 serializer (Printer). `Value D` has the constructors of Value::Type; an object is
--                 its ordered members, and a reference that GetOrCreate returns is an update function.
--   Util/         linux/src/util.cpp: VersionNewer (Version), the directory functions (Dirs)
--   Settings/     linux/src/settings.cpp: Settings::Parse
--   NodeRuntime/  linux/src/node_runtime_manager.cpp: IsMainlandChina, ArchName, the directories,
--                 RuntimeAvailable, EnsureOnPath, ResolveLatestLTS (Release) and Provide (Install). The
--                 environment is a function, and setenv changes it.
--   Server/       linux/src/server_manager.cpp: the variables of the module are the record Manager;
--                 Initialize, Start, Stop and OnChildExited are functions on it, and what they do to
--                 the system is a list of effects. ResolvePort and its probes are in Port. World
--                 has the steps of the shell with the server processes that are there.
--   Plugins/      linux/src/plugins_manager.cpp: package.json (Profile), DependencyTree (Tree) and
--                 OutputTail (Tail), FetchMarket, NpmPackage and GitSpec (Market)
--   Update/       linux/src/update_manager.cpp: ExtractVersion, LocalVersion and UpdateAvailable
--   Labels        the texts of both languages
--   Plugins/Dialog/
--                 the dialog of linux/src/plugins_manager.cpp: DialogState without its widgets (State),
--                 the rows and the buttons (Rows, Buttons), StartOp and the operations with their
--                 idle callbacks (Operations), the signal handlers (Handlers), and the steps of user,
--                 workers and main loop (World)
--   Window/       linux/src/main_window.cpp: the preferences and settings.conf (Preferences), the
--                 navigation policy and the grace period (Navigation), the About dialog (About), the
--                 log drain (Lines, Logs), the life cycle of the server (Polling, its steps in
--                 Waiting), the relay address and the pairing data (Relay), the bridge process (Bridge,
--                 its steps in Bridging), the context of the Node.js install (Installing), and the
--                 settings dialog, downloads, Edit menu and icon (Controls)
--   Windows/      windows/src/json.cpp, the JSON scanner of the Windows shell: ParseString and
--                 JsonEscapeString (Scan), the searches (Ranges), keys and arrays (Arrays). A position
--                 is a Cursor, with the bytes of the document from there on. windows/src/util.cpp
--                 (Guard, Paths), windows/src/settings.cpp (Arguments) and
--                 windows/src/dsh_update_manager.cpp (Versions).
--
-- Texts are lists of bytes, and a position in a text is the list of the bytes from there on. A `false`
-- return of a parser is `failed`.
--
-- The parser runs on fuel, 3 * length + 3 for a text, which never runs out (Json.Total). VersionNewer
-- runs on fuel as well, since its loop need not end. ResolveLatestLTS has a round of fuel for each byte
-- of the index and one more, which is enough. ResolvePort is structural in its 100 tries, and BuildNode
-- in the levels left of 4. The grace period has 21 rounds of fuel, which its limit of 20 tries does not
-- exceed. A search of the Windows scanner has a round of fuel for each byte of its range and one more, which
-- is enough (Windows.Rounds); the loop on string arrays need not end, and takes its fuel as an argument.
--
-- A probe of a port may be answered differently each time: the answers are a function of the number of
-- requests made before. SIGKILL ends a process, SIGTERM may be ignored. A worker of the plugins dialog is
-- a step of its own that ends in any order, and so is a timer of the main loop; the answer of a modal
-- dialog is a step as well. GKeyFile is a parameter (KeyFiles) with the laws that the settings rely on.
--
-- Not modelled: GTK, WebKit and libsoup calls, files and processes, which are parameters where a part
-- needs their result; the construction of widgets and menus, the drawing of the QR code, the rest of the
-- Windows shell and the other shells. Doubles are a parameter of the JSON codec (Json/Floats), with
-- strtod and the two printf formats that the serializer uses. An int or size_t that grows with a text in
-- memory is a natural number.
pub mod Base
pub mod Json
pub mod Labels
pub mod Util
pub mod Settings
pub mod NodeRuntime
pub mod Server
pub mod Plugins
pub mod Update
pub mod Window
pub mod Windows
