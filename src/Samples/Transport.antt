-- ===== src/Samples/Transport.antt =====
-- src/osc-server.cpp on concrete batches, queues and schedules.
use obs_osc.Base.{◌≡◌, refl, true, [], ◌∷◌, ◌++◌, codes, some, arith, starts_with}
use obs_osc.Base.Run.{ok}
use obs_osc.Net.{Endpoint, inet}
use obs_osc.Message.Types.{OscMessage, osc_int}
use obs_osc.Message.Build.{osc_build_message}
use obs_osc.Message.Padding.{int}
use obs_osc.Server.State.{Server, OutPacket, start, stop, enqueue, max_send_queue, fresh_server}
use obs_osc.Server.Batch.{Outbox, begin_batch, no_batch, batch_datagrams}
use obs_osc.Server.Bundle.{FitsBundle, parse_all, reply_all, batch_delivers}
use obs_osc.Server.Queue.{latest, enqueue_each, enqueue_each-latest}
use obs_osc.Server.Steps.{
  World, started, offer, halt, launch, here, next, IsValid, InOrder, Reach-IsValid,
}

abbrev client : Endpoint
client = record {
  family = inet;
  port = 7000;
  address = 127 ∷ 0 ∷ 0 ∷ 1 ∷ [];
  scope = 0;
  rest = [];
  len = 16;
}

abbrev muted : OscMessage
muted = record { address = codes "/mute/Mic"; args = osc_int 1 ∷ [] }

abbrev outbox : Outbox
outbox = record { server = fresh_server; batch = no_batch }

muted-FitsBundle : FitsBundle muted
unfolding starts_with osc_build_message
muted-FitsBundle = (
  record {
    rooted = refl;
    nul_free = ground arith;
    address_bound = omega arith;
    args_bound = omega arith;
    sendable = (int 1 (omega arith) refl, tt);
  },
  omega arith,
)

batch_delivers_example :
    ((reply_all (begin_batch outbox client) client (muted ∷ muted ∷ [])).server ≡ outbox.server)
    × (parse_all
          (batch_datagrams
            (reply_all (begin_batch outbox client) client (muted ∷ muted ∷ [])).batch.messages)
          []
        ≡ ok (muted ∷ muted ∷ []))
batch_delivers_example =
    batch_delivers outbox client (muted ∷ muted ∷ []) (muted-FitsBundle, (muted-FitsBundle, tt))

abbrev sending : Server
sending = record fresh_server { running = true; fd = some 3; send_running = true }

abbrev packet : OutPacket
packet = record { target = client; bytes = 1 ∷ 2 ∷ [] }

enqueue_each-latest_example : enqueue_each sending (packet ∷ packet ∷ []) ≡ record sending {
  send_queue = latest max_send_queue (sending.send_queue ++ (packet ∷ packet ∷ []));
}
enqueue_each-latest_example =
    enqueue_each-latest sending (packet ∷ packet ∷ [])
      (record { open_socket = (3, refl); thread = refl })
      ((omega arith, omega arith), ((omega arith, omega arith), tt)) (omega arith)

abbrev launched : World
launched = record started { server = (start started.server true (some 3)).0 }

abbrev offered_one : World
offered_one = record launched {
  server = enqueue launched.server client (1 ∷ []);
  offered = launched.offered ++ (record { target = client; bytes = 1 ∷ [] } ∷ []);
}

abbrev halted : World
halted = record offered_one {
  server = (stop offered_one.server).0;
  sent = offered_one.sent ++ (stop offered_one.server).1;
}

Reach-IsValid_example : IsValid halted.server × InOrder halted
Reach-IsValid_example =
    Reach-IsValid (next (next (next here (launch true (some 3))) (offer client (1 ∷ []))) halt)
