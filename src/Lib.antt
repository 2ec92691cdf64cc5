-- ===== src/Lib.antt =====
-- Remmina KRunner: a D-Bus service that lets KRunner search the connection profiles of Remmina and
-- start it. This library models the service's logic and proves what it promises.
--
-- The parts, and how they interact:
--   * The scan of the installations (native, Flatpak, Snap) gives a list. src/core/selection_policy.cpp
--     decides which one is selected, and src/core/instance_registry.cpp keeps the list, the selected
--     id and the persisted id together. `Instance` has the data and the search for the selected
--     installation, `Selection` is `validateSelection`, `Registry` is `InstanceRegistry`: one function for
--     `rescanAndRepair` and one for `select`, each from a state and a store to a state and a store.
--   * A profile is a key file. src/core/key_file_reader.cpp reads it, and hands out the values of
--     the allowed keys only. `KeyFile.Utf8`, `KeyFile.Values` and `KeyFile.Names` are its checks and its decoder,
--     `KeyFile.Reader` is the loop of `readAllowedKeyFileValuesWithError`, one function for each branch.
--   * src/core/matcher.cpp reads the query that the user types and ranks the profiles: `Matcher`.
--   * src/core/remmina_launcher.cpp starts the selected installation: `Launcher`. What it does outside
--     (an attempt to start a process, a notification) is a list of effects, and a dependency that
--     throws is an absent value.
--   * src/core/profile_catalog.cpp keeps the profiles of the selected installation while nothing
--     changes: `Snapshot` is what it compares and watches, `Catalog` its state machine. Each call of the
--     repository and of the watcher answers, or throws, and may report a change meanwhile;
--     `Repository` has the data of the answers.
--   * src/core/instance_scanner.cpp finds the installations: `Scanner`, one function for each backend
--     and one for the rows of `flatpak list`.
--   * src/core/profile_parser.cpp makes a profile of the values of its file: `Parser`.
--   * src/dbus/runner_service.cpp is what KRunner calls: `Service`. Each D-Bus method, and the end of
--     the idle time, is a function from the state to the state and the calls that it makes.
--   * src/application.cpp is the command line: `Application`.
--   * src/kcm/instance_settings_model.cpp and src/kcm/remmina_runner_config.cpp are the settings:
--     `Settings` is the model with the pending and the saved choice, `Settings.Page` the widgets, and
--     `Settings.Control` joins the model to the registry.
--   * src/core/kconfig_selection_store.cpp is `KConfigStore`, a store as the registry wants it.
--   * src/core/profile_locator.cpp finds the directory of the profiles: `Locator.Paths` (paths and
--     symbolic links), `Locator.Status` (the system calls), `Locator.Roots` (the sandboxes) and
--     `Locator.Search`. At most forty links are followed, so that loop needs no fuel.
--   * src/platform/qt_profile_watcher.cpp is `ProfileWatcher`: a watcher with a counter of
--     generations modulo 2^64.
--   * src/platform/qt_process_probe.cpp is `ProcessProbe`. The loop over the output takes fuel; two
--     rounds more than the bound of 65536 bytes are enough, since each round that goes on has read a
--     byte.
--   * src/core/profile_repository.cpp lists the profiles of the located directory: `Repository.Hash`
--     (ids and keys), `Repository.Files` (directories and links), `Repository.Inspection` (one file,
--     and the enumeration) and `Repository.Loading` (the cache and load). The system calls answer
--     from a world that each of them may change, so files may change between any two calls.
-- `Base` has the names and lemmas that the modules share; `Tests` has runs on small inputs, and each
-- theorem with conditions at an input where they hold.
--
-- Conventions. A text is the list of its code units, and a byte text the list of its bytes. Scores are
-- hundredths, as they are only compared. Qt's case folding, its character classes and its path
-- functions are parameters. System calls answer as `Posix` says, after any finite number of
-- interruptions. The stores, the process environment and the other services are records
-- of operations, with the laws that the code relies on.
--
-- Fuel. The loop of the UTF-8 check and the loop over the query have the length of their input and
-- one; the loop over the lines of a file has its length and two. Each round takes at least one
-- code unit or byte off, so the fuel is enough: the theorems on these loops say so. The loops that
-- follow symbolic links count the links down from forty, and an inspection is attempted twice, as in
-- the source.
--
-- Not modelled: the opening of key files and the wiping of buffers; the environment that the
-- scanner and the settings read from the process, and the construction of the objects (src/main.cpp);
-- the notifier and the start of a process (src/platform/freedesktop_notifier.cpp and
-- qt_process_launcher.cpp), which are single calls that the launcher takes as dependencies; D-Bus
-- marshalling; the widgets of the settings page, of which only the state is modelled; and the build,
-- packaging and test files. They are system calls, user interface and glue.
pub mod Registry
pub mod Snapshot
pub mod Locator
pub mod Profile
pub mod Catalog
pub mod Application
pub mod Instance
pub mod KeyFile
pub mod Service
pub mod Matcher
pub mod Selection
pub mod Posix
pub mod Scanner
pub mod ProfileWatcher
pub mod Parser
pub mod Repository
pub mod Launcher
pub mod Settings
pub mod Base
pub mod ProcessProbe
pub mod KConfigStore
pub mod Tests
