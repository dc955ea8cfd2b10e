-- ===== src/Lib.antt =====
-- The decision logic of the homelab's Python programs, each read as pure functions over explicit
-- inputs. A text is a list of code points (Base/Text.antt), a Python dict an association list in
-- insertion order (Base/Dict.antt), a decoded JSON document a value of a data type (Base/Json.antt),
-- and an exception a result (Base/Result.antt).
--
-- Autodeploy: ansible/roles/homelab_autodeploy/files/homelab_autodeploy.py.
--   State has _load, needs_deploy, ci_passed and the transitions on_attempt, on_success and on_fail
--   over the dict of state.json. Plan has _role_to_target, plan_targets and plan_skipped; the loop of
--   plan_targets is visit and visit_all, the steps behind it runtime_first, ordered, allowed and
--   undenied. Rollback has rollback_targets. Controller is one run of
--   ansible/roles/homelab_autodeploy/templates/homelab-autodeploy.sh.j2, which calls these; the tag's
--   commit, the answer of CI, the changed files and the outcome of each make are its inputs. Metrics
--   has render_metrics, Main has main over argv, and Shell the same run of the script as it calls main:
--   over the state file, with exit statuses and printed lines in place of values.
-- SplitDns: ansible/roles/tailscale_dns/files/tailscale_split_dns.py.
--   Names has _norm and covers, Verdict has decide with its two loops require and retire, Status has
--   parse_status and main behind its argument parser, Printed what it prints. json.loads and str() of
--   a value that is no text are parameters; any ValueError of json.loads counts as no JSON there.
-- NfsMount: mac-worker/nfs_mount.py.
--   Decide has decide, Listing the parsers of nfsstat and mount, World the commands that run starts
--   with the system's answers as a function of all that was run before, Recovery has health, recover
--   and recover_with_worker, Supervise has inspect, pick_source and one pass of supervise up to the
--   report, which Report gives as a JSON value. Times are whole nanoseconds in place of floats.
--   Children has run with its table PENDING, over processes with numbers, and Probe has probe_file.
--   Publish has write_status, the child that --publish starts, and the end of a pass. Files are a dict
--   from names to texts (Base/Disk.antt); any call on them may fail, and what they were after each call
--   is kept. json.dump and json.loads are parameters. Main has main with the drop of privileges, over
--   the user and groups of a process, up to the choice of a job; what the jobs raise lies outside it.
-- NfsClient: ansible/roles/nfs_server/files/nfs_client_metrics.py, which reads that report on the Pi.
--   Validity has valid_status, Render has render over the metrics of a report; how Python shows a
--   number is a parameter. Main has main, and Shared reads what a pass of the supervisor published.
-- KernelScan: ansible/roles/node_exporter/files/kernel_io_scan.py.
--   Pattern is a matcher for the rows of atoms that the regular expressions consist of, Classes has
--   the table, severity_of and classify, Scan has scan, Prom has render_prom, Parse has the two line
--   patterns and parse_prom with the doubles that it reads, Carry has carry_forward and the sequence
--   of scans over what they publish, Main has main and the sequence of runs over the files. The time
--   is given as the text that Python prints.
-- Runner: mac-worker/github-runner/supervisor/supervisor.py.
--   World has the state of the supervisor (Config, Counters, the dict of offline runners, the status
--   written last) and the answers of docker, of GitHub and of the clock as functions of all that was
--   called before; an operation is a function from a state to a result and a state, and the state
--   outlives an exception. Docker has the listings and spawn_runner, Github the requests, Reap
--   reap_exited_containers and reap_offline_runners, Spawn maybe_spawn, Tick inspect_runner_image,
--   tick, write_status and what run catches, Start the rounds of run before its loop. A response
--   stands for its decoded body, its status code and its rate header as a number; a request may
--   instead raise an HTTPError. docker itself always answers, and a registered runner always has an
--   id. Times are whole nanoseconds. Settings has env and Config over the environment, Report
--   the status and the heartbeat as values, Files the calls that write them.
-- RunnerMetrics: ansible/roles/github_runner_metrics/files/gh_runner_metrics.py, which reads that
--   status on the Pi.
--   Inputs has _read_heartbeat, _read_status and the staleness, Series the metrics of one number as
--   rows of tables, Render has render, Main has main, and Shared is about the files that the
--   supervisor wrote. _num and the lines of a metric are in Base/Metrics.antt.
-- Beszel: ansible/roles/beszel/files/beszel_freshness.py.
--   Beszel.antt has latest_sample over the answers of SQLite, which are values of any type, and main,
--   which an AttributeError or a TypeError may escape; a date is given by its
--   microseconds. Publish has the file that main writes.
-- SourceId: scripts/go-source-id.py. SourceId.antt has the selection of the files, their order and the
--   bytes that are hashed; what the file system lists and holds is given, and SHA-256 left out.
--
-- Loops are recursions on a list or a text, and the two endless loops of the runner supervisor steps
-- whose number is a parameter. Two helpers on numbers take fuel: the digits of n take n + 1, and the
-- size in bits of a mantissa as much as the number itself.
--
-- What json.load raises beside a JSONDecodeError is part of its answer (Loaded in Base/Json.antt)
-- where the program catches no more than that, in _load of the deploy controller and _read_status of
-- the runner metrics. The other programs catch any ValueError; a RecursionError is left out there.
--
-- Bounds of the models: lower() and the digits and word characters of patterns are the ASCII ones;
-- the age of an NFS report is taken exactly where its time is a float, and integers beyond the range
-- of floats, at which math.isfinite raises, are left out there; log lines are left out. A
-- file that is written is known by its text; its mode and owner are left out. A child of the NFS
-- supervisor that is killed leaves one of the states of the files that its calls went through.
--
-- Not modelled: argument parsing by argparse; the sleeps between
-- the passes of the supervisors; in the controller's script git, the notifications and
-- the gauge of the deny-list drift; the benchmark, which only times processes, and the scripts that
-- lint; other Jinja templates, Ansible roles and the Go runtime, which are configuration or other
-- languages.
pub mod Base
pub mod Autodeploy
pub mod SplitDns
pub mod NfsMount
pub mod KernelScan
pub mod Runner
pub mod NfsClient
pub mod RunnerMetrics
pub mod Beszel
pub mod SourceId
