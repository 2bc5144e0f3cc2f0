-- ===== src/Lib.antt =====
-- OmniUp VPN: a control plane that enrols machines and tells them of one another, a relay and a STUN
-- server that help them to reach one another, and the agent: its UDP socket, its peers and routes.
--
-- The parts and where they are modelled:
--   Control/State, Alloc, Devices, Fleet   internal/control/store.go: the store of machines and
--       enrolment keys (Store, saveLocked, allocateIPLocked, RegisterDevice, RegisterDeviceSSO,
--       DeviceByToken, RotateTokenIfDue, TouchDevice, SetApprovedRoutes, RemoveDevice, Devices)
--   Control/Open    OpenStoreCIDR of the same file
--   Control/Sound   the well-formedness of the store, and histories of its operations
--   Control/Users   internal/control/users.go: accounts, invitations, sessions
--   Control/Portal  internal/control/users_http.go: the users' portal, on Control/Users and Fleet
--   Control/Acl     internal/control/acl.go: the access policy
--   Control/Api, Admin   internal/control/server.go: the poll, which calls TouchDevice, then
--       RotateTokenIfDue, then reads the policy and the machines; enrolment; the administrator
--   Control/Oidc    internal/control/oidc.go: enrolment through an identity provider, each handler as
--       a function, and the locked regions of the callback as the steps of Control/Oidc/Steps
--   Relay/Frames, Proof, Server   internal/relay/relay.go and server.go: frames, the
--       challenge-response, and what the relay does with a packet
--   Stun            internal/stun/stun.go and server.go
--   Omnisock        internal/omnisock/disco.go and bind.go: the socket that passes each packet to
--       disco, Stun, Relay or the WireGuard engine
--   Agent/Endpoints internal/agent/endpoints.go: the choice of the path to each peer
--   Agent/Routes    advertisedRoutes and filterRoutes of internal/agent/agent.go
--   Agent/Sync      one round of the loop of Up in the same file (the closure sync): it polls with
--       Agent/Client (client.go), keeps its identity with Agent/State (state.go), and applies the map
--       with Agent/Routes, Wgnet, Agent/Endpoints and Dnssrv
--   Agent/Forward   internal/agent/forward_linux.go
--   Commands        cmd/omnid-gui/view.go, and of cmd/omni-server/main.go what it computes
--   Wgnet           internal/wgnet/wgnet.go and uapi_client.go: the texts that configure the engine,
--       what is read from its answers, and the system routes; Wgnet/Exit is exitnode_linux.go
--   Dnssrv          internal/dnssrv/dnssrv.go: the names of the machines
--   Net             the values of net/netip that the program computes with
--   Base            Boolean tests, lists, byte texts, maps, and what is used of strings and hex
--
-- Go's strings, byte slices and fixed arrays are lists of numbers (Text). A struct is a record with
-- the field names in snake case; a Go error is a constructor of a result type; an operation takes
-- the state and gives the new state. A map is an association list whose order stands for the
-- order of one iteration.
--
-- Parameters: the text forms of addresses (NetText), strings.ToLower and TrimSpace (Unicode),
-- bcrypt (Control/Users), Curve25519 and HMAC-SHA256 (Relay/Proof), the texts of WireGuard keys
-- (Wgnet/Keys, Control/Admin), base64 (Omnisock/Socket), net's parsers (Wgnet/Device, Dnssrv,
-- Omnisock/Socket), iptables (Agent/Forward). The Demo and Tests modules give the parameters of the
-- results below concrete functions.
--
-- Inputs: what time.Now, crypto/rand and the file operations give, in the Env of each operation.
-- An operation reads the clock once, also where the code reads it twice. Times are nanoseconds
-- since the zero time. The JSON state file is the state that it stands for.
--
-- Fuel: the scan of allocateIPLocked has a round for every address from the first to the end of
-- its prefix, and the loop over STUN attributes one for every byte; neither runs out. itoa has more
-- rounds than digits.
--
-- Concurrency: the store and the relay work under a lock, so that a run is a sequence of
-- operations. The callback of Control/Oidc takes locks one after the other, and its regions
-- interleave with other requests of the four handlers and with the calls of Control/Sound/Calls, the
-- operations on machines; changes of accounts or of the policy, which the callback does not read,
-- are no steps of these runs. The relay handles packets one after the other.
--
-- Not modelled: what Up does before its loop (internal/agent/agent.go), the start of the WireGuard
-- engine, its addresses (internal/wgnet), the waiting in STUNRequest
-- (internal/omnisock), the embedded pages (internal/control/webui.go), and of the commands (cmd) the
-- flags, services, windows and output: they are HTTP, system calls and processes.
pub mod Base
pub mod Net
pub mod NetText
pub mod Unicode
pub mod Control
pub mod Relay
pub mod Stun
pub mod Omnisock
pub mod Wgnet
pub mod Dnssrv
pub mod Agent
pub mod Commands
