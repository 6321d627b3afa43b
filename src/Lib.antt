-- ===== src/Lib.antt =====
-- ZentLoop: an HTTP and SSH deception service. This library models parts of the Go program and proves
-- what makes them correct.
--
-- Parts and files.
-- Common: shared types, list and map lemmas, maps of bounded size (Common.Bounded), and the functions of
--   Go's `strings` and `sort` that are used.
-- Common.Utf8: how Go's `range` and `WriteRune` read and write code points.
-- Common.Ints: integers.
-- Shell (internal/server/trap_ssh_shell.go): the scanners that cut a command line. Shell.Words is
--   `virtualWords`; Shell.Redirect is `findVirtualRedirect`; Shell.Split is `splitOutsideQuotes`,
--   `balancedVirtualDelims` and `unwrapVirtualGroup`.
-- Editor (internal/server/trap_ssh_editor.go): `virtualTextBuffer`; in Editor.Keys the keys of
--   `runVirtualVim` and `runVirtualNano` that edit it; in Editor.Commands the loop of `runVirtualVim` with
--   its commands and the search.
-- Admin (internal/server/admin_auth.go and internal/server/admin.go): the session table, the table
--   of failed logins, and in Admin.Http the handlers and the gate before every other handler.
-- Credentials (internal/store/ssh_auth_reality.go and internal/server/trap_ssh_auth_policy.go): the
--   pools of accepted passwords and the bindings of sources; Credentials.Policy is
--   `trapCredentialDecision`, with the event store's answers and the clock as inputs.
-- Files (`virtualSSHWorld` in internal/server/trap_ssh_shell.go): the files and directories of the
--   virtual host with their limits; Files.Paths is `path.Clean` and `utf8.ValidString`.
-- Tarpit (internal/store/ip_intelligence.go): `SSHTarpitDelay`.
-- Sftp (internal/server/trap_ssh_sftp.go): the SFTP subsystem on the files of the virtual host. Sftp is
--   its state (the table of handles), Sftp.Wire the encoding, Sftp.Handles and Sftp.Tree the requests,
--   Sftp.Session the choice between them and the loop. sha256, the clocks and the files made on reading
--   are parameters. The loop's fuel is a number of packets: one more than the bytes received is enough.
--   A panic is an outcome of its own, since the worker recovers from it and the session ends.
-- Trusted (internal/store/trusted_domains.go): canonical host names, the trusted root of a host,
--   replacing the operator's list (Trusted.Settings), the counters of request hosts and the view of the
--   untrusted ones (Trusted.Hosts). net.SplitHostPort and net.ParseIP are parameters.
-- Retention (internal/store/retention.go): the logs as bytes, the two compactions with their error paths,
--   and (Retention.Budget) the shares of the storage budget and the sweep. Which calls of the file
--   system succeed, and the time that a line carries, are inputs.
-- Bursts (internal/store/bursts.go): the grouping of events into coordinated bursts.
-- Scorer (internal/engine/scorer.go): the assessment of a request, with the tables of signals in
--   Scorer.Signals. The standard deviation of the intervals between requests is a parameter.
-- Store (internal/store/store.go): the ring of events and the counters (Store), the normal form of a
--   path (Store.Paths), the list of events of a target (Store.Views), and the table of sessions with
--   its fingerprints (Store.Sessions).
--
-- Representation. Text is a list of bytes, and of code points in the editor and where the source ranges
-- over runes; it is taken to be ASCII where Go's Unicode tables matter. A time is a number of
-- nanoseconds with 0 for the zero time. A map is an association list; where Go leaves the order of a range loop open, the model follows the list.
-- sha256 and the HMAC are parameters.
-- Loops over a map that delete from it take the map's length as fuel, and the bounds on what they
-- leave are proved from that fuel.
--
-- Not modelled: network and file input and output, rendering, the simulated commands' output texts,
-- the HTTP deception pages, geolocation, crawler verification and the live dashboards.
mod Common
pub mod Shell
pub mod Editor
pub mod Admin
pub mod Credentials
pub mod Files
pub mod Tarpit
pub mod Sftp
pub mod Trusted
pub mod Retention
pub mod Bursts
pub mod Scorer
pub mod Store
