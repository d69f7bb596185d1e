-- ===== src/Server/Batch.antt =====
-- Poll replies: `reply`, and `begin_batch`/`end_batch` round a group of them. The accumulator is
-- thread-local, so it is a state beside the server's.
use obs_osc.Base.{
  ◌^◌, ◌%◌, Bool, true, false, ◌&&◌, List, [], ◌∷◌, ◌++◌, if◌then◌else◌, length, Bytes,
}
use obs_osc.Net.{Endpoint, no_endpoint, endpoint_same}
use obs_osc.Message.Types.{OscArgument}
use obs_osc.Message.Read.{write_be32}
use obs_osc.Message.Parse.{bundle_tag}
use obs_osc.Message.Build.{zeros, osc_build_message}
use obs_osc.Server.State.{Server, enqueue}

pub record ReplyBatch : Type 0 where
  pub to : Endpoint
  pub active : Bool
  pub messages : List Bytes

abbrev pub no_batch : ReplyBatch
no_batch = record { to = no_endpoint; active = false; messages = [] }

pub record Outbox : Type 0 where
  pub server : Server
  pub batch : ReplyBatch

unfoldable pub begin_batch : Outbox → Endpoint → Outbox
begin_batch o to = record o { batch = record { to = to; active = true; messages = [] } }

unfoldable pub reply : Outbox → Endpoint → Bytes → List OscArgument → Outbox
reply o to address args =
    if o.batch.active && endpoint_same o.batch.to to
    then record o {
      batch = record (o.batch) {
        messages = o.batch.messages ++ (osc_build_message [] address args ∷ []);
      };
    }
    else record o { server = enqueue o.server to (osc_build_message [] address args) }

-- The size-prefixed elements behind a bundle's header.
unfoldable pub bundle_elements : List Bytes → Bytes
bundle_elements [] = []
bundle_elements (m ∷ ms) = write_be32 (length m % 2 ^ 32) ++ (m ++ bundle_elements ms)

unfoldable pub build_bundle : List Bytes → Bytes
unfolding bundle_elements
build_bundle ms = bundle_tag ++ (zeros 8 ++ bundle_elements ms)

-- The datagrams of a finished batch: none, the lone reply verbatim, or one bundle.
unfoldable pub batch_datagrams : List Bytes → List Bytes
unfolding build_bundle
batch_datagrams [] = []
batch_datagrams (m ∷ []) = m ∷ []
batch_datagrams (m ∷ n ∷ ms) = build_bundle (m ∷ n ∷ ms) ∷ []

abbrev pub enqueue_all : Server → Endpoint → List Bytes → Server
enqueue_all s to [] = s
enqueue_all s to (d ∷ ds) = enqueue_all (enqueue s to d) to ds

unfoldable pub end_batch : Outbox → Outbox
unfolding batch_datagrams
end_batch o = record {
  server = enqueue_all o.server o.batch.to (batch_datagrams o.batch.messages);
  batch = record (o.batch) { active = false; messages = [] };
}
