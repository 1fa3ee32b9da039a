-- ===== src/Lib.antt =====
-- A model of the server side of warp-insight: the loss accounting of record streams, the edge gateway
-- that enrols agents, and the control center that provisions gateways.
--
-- How the parts interact. An agent gets an enrollment token from the gateway (crates/warp-gateway),
-- trades it once for a bearer credential, and then reports with that credential; operators call the
-- gateway with an admin token. Failed attempts are counted by client. A gateway is itself provisioned
-- by the control center (crates/wist-center) with a bootstrap token and an enrollment token. Each hop
-- that carries records runs a quality channel (crates/wist-delivery), which tells duplicates from
-- losses by the sequence numbers.
--
-- Where what is modelled:
--   Prelude          shared names; Prelude.Words has the wrap-around and the saturation of u64 and u32,
--                    Prelude.Text a String as its bytes, Prelude.Assoc a HashMap as an association list,
--                    Prelude.Results the Result type with `?`, Prelude.Chrono the dates of chrono.
--   Delivery         crates/wist-delivery/src: Delivery.Watermark is watermark.rs (WatermarkTracker is
--                    Tracker; observe, commit_range and settle keep their names; settle is cut into
--                    drained and skip_or_lose, one round of its loop), Delivery.Channel is channel.rs,
--                    Delivery.Report is report.rs, Delivery.Reconcile is reconcile.rs.
--   Secret           crates/warp-gateway/src/infra/secret.rs, and bearer_token and constant_time_eq, of
--                    which several files have copies.
--   Snapshots        load, update and update_result of the two stores, crates/warp-gateway/src/infra/
--                    store.rs and crates/wist-center/src/infra/store.rs. An update is one step of the
--                    model, because the source holds the process lock and the file lock from the
--                    reading to the writing. Disk says how the file system fails.
--   Gateway          crates/warp-gateway/src: Gateway.Store has the data of infra/store.rs,
--                    Gateway.RateLimit is api/rate_limit.rs, Gateway.Tokens the enrollment tokens of
--                    api/install.rs and api/enrollment.rs, Gateway.Identifiers and Gateway.Enrollment
--                    the rest of api/enrollment.rs, Gateway.Agents is api/agent_ops.rs (with
--                    renew_agent_credential in Gateway.Agents.Renewal), Gateway.Admission is
--                    api/admin_auth.rs and the handlers that count failures, Gateway.AdminOps is
--                    api/admin_ops.rs. Gateway.Settings is infra/config.rs (the whole AdminConfig; the
--                    record of Gateway.Config has what the handlers read), Gateway.Toml is toml_escape of
--                    api/install.rs, Gateway.Install and Gateway.Package the rest of that file,
--                    Gateway.Overview is api/overview.rs.
--   Center           crates/wist-center/src: Center.Store has the data of infra/store.rs, Center.Tokens,
--                    Center.Gateways and Center.Catalog the operations of FileStore on enrollment tokens,
--                    on gateways and agents, and on releases, upgrade plans and bindings, with the
--                    listings. Center.Config has what api/mod.rs derives from the settings,
--                    Center.Access authenticate_gateway of api/gateway_ops.rs and api/admin_auth.rs;
--                    Center.Reports, Center.Registration and Center.Provisioning are the other handlers
--                    of api/gateway_ops.rs, Center.Admin those of api/admin_ops.rs, Center.Artifacts is
--                    infra/artifacts.rs, Center.TimeSeries the lines and histories of infra/vm.rs,
--                    Center.Seeds is parse_gateway_credentials of config.rs. A handler's state is
--                    the buckets of the rate limit and the store; a record of its surroundings has each reading of the clock, each access of
--                    the store and the random bytes, in the order in which the handler meets them.
--   Tests            and the modules of that name below Delivery, Gateway and Center: runs on data.
--
-- State is passed explicitly. A request is a function of the store that also gives its answer;
-- requests that run at the same time are sequences of store updates in any order (the Call types).
-- What is not in the repository is an argument: the SHA-256 digest, the random bytes, the readings of
-- the clock, the HMAC, the answers of the disk, of downloads and of the time-series database, and
-- chrono's conversion of dates, of which only the round trip is relied on. The message types of the
-- crate wist_contracts are records of the fields that the handlers read.
--
-- Bounds and fuel. Numbers are natural numbers with the machine's width written out where the source
-- computes with it. Sequence numbers are taken to be below 2^64 - 1, since the tracker adds one to
-- them. The loop of settle runs on the fuel high + 2 - committed, and its inner loop on the number of
-- observed records: each round but the last moves `committed` on, and it stays within high + 1. An
-- instant is a number of nanoseconds. White space is that of ASCII. In the center, `values_mut().find`
-- takes the first entry in the order of the list, as min_by_key does among buckets of the same age in
-- the gateway.
--
-- Not modelled: HTTP, JSON, the audit lines, the queries of the time-series database, the metrics and
-- the pipeline topology of the gateway, TLS and signatures, the PostgreSQL store, the web interfaces
-- and the download of artifacts. What other requests do between two accesses of one handler is not
-- part of the handler's function.
pub mod Prelude
pub mod Secret
pub mod Snapshots
pub mod Tests
pub mod Delivery
pub mod Gateway
pub mod Center
