-- ===== src/Lib.antt =====
-- The fluentbit-operator: from custom resources to the configuration files of Fluent Bit.
--
-- The operator lists the Input, Filter, Output and Parser objects of a namespace. `RenderMainConfig` and
-- `RenderParserConfig` sort the objects by name, ask each plugin of each object for its parameters, some of
-- which are secrets read through the API, and write the sections of fluent-bit.conf and parsers.conf.
-- The FluentBitConfig controller puts the files, and the Lua scripts that filters name, into a Secret.
-- The pod has the Secret as a directory. A watcher in the pod decompresses the configuration if need be, and
-- restarts Fluent Bit, with a back-off delay, when its configuration changes.
--
-- The files, and the code that they model (paths from the root of the repository; below, `types` stands
-- for api/fluentbitoperator/v1alpha2):
-- - Prelude: names of the library, Boolean tests, and what the code uses of Go: the order and suffixes of
--   strings (`less`, `trim_suffix`, `has_suffix`), decimal numbers, `sort.Sort` and `sort.Strings` (`sort_by`), maps as
--   association lists with the key once (`GoMap`), `strings.Split` and `strings.Trim` (`split`,
--   `trim_spaces`), `string(rune(n))` and the printed form of a pointer. No two keys of a map and no two
--   names of the objects of a kind are equal, so that every sorting algorithm gives the same list: an
--   insertion sort stands for Go's. Scripts of two ConfigMaps may share a key: there the model takes one of the
--   orders that Go's sort may give.
-- - Result: `(value, error)`; a run-time panic is the error `panicked`.
-- - Run: calls that change the world, chained.
-- - Utils: pkg/utils/utils.go.
-- - Params: types/plugins/params/kvs.go. `Kvs` is the struct of two slices; `insert`, `insert_string_map`,
--   `merge` and `to_string` are its methods. A method with a pointer receiver returns the new value.
--   `insert_text`, `insert_some` and `insert_each` are the three forms in which plugins call Insert.
-- - Plugins: types/plugins/secret_types.go and configmap_types.go (`load_secret`, `load_config_map`), with the
--   API client as a parameter, the function `get`. Plugins/Tls: tls_types.go. Plugins/Input, Filter, Output
--   and Parser: one module for each plugin, a record and `name` and `params` for its methods, and a sum
--   `InputPlugin` … for the values of the interface `Plugin`. Plugins/Sane: keys and values of what they
--   return. Plugins/Secrets: which secrets the output plugins read.
-- - Config: the Load methods of types/input_types.go, filter_types.go, output_types.go and parser_types.go, with
--   the loop over the fields of a spec (by reflection in Go) as a list of plugins that may be missing, and
--   types/fluentbitconfig_types.go (`Service`, `render_main_config`, `render_parser_config`,
--   `render_lua_script`). Of an object only its name and its spec are modelled. Config/Sections: the
--   configuration as data, and its text. Config/Reader: an independent reader of that text. Config/Stable:
--   the order of the lists. Config/Example: the test of fluentbitconfig_types_test.go.
-- - Controllers/Config: controllers/fluentbitconfig_controller.go, over a `Client` with the operations of the
--   API client and of controller-runtime that it calls, and a type of states of the cluster. `compress_bytes` is
--   `CompressBytes` of pkg/gziputil, a call of compress/gzip. `reconcile` runs
--   through the FluentBitConfigs, each of which changes the state. Controllers/Config/Data, Scripts, Written, Gather and Stable:
--   what the Secrets hold.
-- - FluentBit: types/fluentbit_types.go. A deletion time is a number of seconds, 0 for Go's zero time.
-- - Controllers/FluentBit: controllers/fluentbit_controller.go and fluentbit_controller_finalizer.go, over a
--   `Client` like the one above. Controllers/FluentBit/Laws: what is relied on
--   of the API server, as two lists of laws, one on deleting and one for a cluster in which calls succeed.
--   Controllers/FluentBit/Deletion and Deployment: the two lives of a FluentBit. Kept and Guard: the finalizer and the
--   DaemonSet, in a cluster in which reconciliations and anything else take turns; a Reconcile is one step.
-- - Operator: pkg/operator/daemonset.go. Operator/Rbac: the RBAC objects. Operator/DaemonSet: `MakeDaemonSet`.
--   Operator/Volumes: volumes and mounts.
-- - Operator/Access: an independent reading of RBAC objects (`allows`).
-- - Manager: the options that cmd/manager/main.go makes of its flags and of the environment file. Manager/Access and
--   Manager/Namespaces: what follows of them for the service accounts and for the namespaces that are watched.
--   Controllers/Setup: the two `SetupWithManager`. Manager/Start: the calls of main, over a `Runtime` with those of the library.
-- - Files: what pkg/copy, pkg/gziputil and the watcher call of package os, a record `Os` on a type of states of
--   the file system. Files/Laws: what is relied on of it. Files/Copy: pkg/copy/copy.go; Files/Copy/Effect, the loop, and
--   Whole, the function. Files/Gzip: pkg/gziputil/compress.go, with the format as a parameter `Codec`.
-- - Watcher/Config: in `start` of cmd/fluent-bit-watcher/main.go, the configuration that Fluent Bit is started with
--   (`prepare`). Watcher/Config/Restored: what it holds.
-- - Watcher/Process: the variables of cmd/fluent-bit-watcher/main.go (`Store`) and `start`, `stop`, `resetTimer`, and
--   the parts of `wait` and `backoff`. The starting and signalling of a process are operations of a `Machine`.
--   Watcher/Machine: the goroutines of `main`, each a function from one point to the next (`run_step`, `handle_step`,
--   `interrupt_step`), and the steps of the whole (`Step`, `Reachable`), in which goroutines take turns in every way, and
--   the rest of the machine may change at any time. Two assignments to `timerCtx` and `timerCancel` are one step.
--   Watcher/Machine/Log: reading the log. Quiet, Moves and Processes: the invariant.
--   Rounds, Turns and Restart: runs. Shutdown, Marks and Told: the end.
-- - Watcher/Backoff: the delay of `backoff` in cmd/fluent-bit-watcher/main.go, in 64-bit arithmetic with its
--   wrap-around written out. What Go leaves open, the conversion to int64 of a float from 2^63 on, is a
--   parameter.
-- - DocGen: `fmtRawDoc` of cmd/doc-gen/main.go. DocGen/Types: what the generator reads of declarations. DocGen/Pages: the
--   pages, over a machine that walks directories, parses files and writes pages. DocGen/Cells and DocGen/Reader: what a
--   cell of a table may hold, and an independent reader of tables.
-- - Delivery: from the controller through the Secret to the file that Fluent Bit is started with. Delivery/Effect: to the
--   process that an event brings.
-- - Tests: the theorems at concrete inputs.
--
-- The bytes of a Secret are taken as text, and strings as sequences of Unicode characters; the order of bytes
-- that Go compares by is the order of code points. Logging, and the contexts that are passed on, are left out.
--
-- The loops of the two goroutines of the watcher have no bound: they are steps. Every other loop that is modelled goes
-- through a list once. `decimal` counts down from the number that it prints.
--
-- Not modelled: pkg/filenotify, a copy of a package of moby and hugo, which the watcher gets events from; the flags of
-- the watcher; the schemes of types; the generated clientset and deep copies.
pub mod Prelude
pub mod Result
pub mod Run
pub mod Utils
pub mod Params
pub mod Plugins
pub mod Config
pub mod FluentBit
pub mod Files
pub mod Controllers
pub mod Operator
pub mod Manager
pub mod Watcher
pub mod Delivery
pub mod DocGen
pub mod Tests
