-- ===== src/Controls/Polls.antt =====
-- What a poll requests of OBS, and what it sends.
use obs_osc.Base.{
  ◌≤◌, true, ◌&&◌, List, [], ◌∷◌, All, map, ◌≡◌, refl, ap, ◌∙◌, length, Bytes, arith,
}
use obs_osc.Base.Run.{ok}
use obs_osc.Message.Types.{OscMessage}
use obs_osc.Server.Bundle.{built, FitsBundle, parse_all, batch_datagrams-parse}
use obs_osc.Net.{Endpoint, endpoint_same, endpoint_same_refl}
use obs_osc.Server.State.{Server}
use obs_osc.Server.Batch.{begin_batch, end_batch, batch_datagrams, enqueue_all}
use obs_osc.Obs.Readings.{Env, Ui}
use obs_osc.Objects.Items.{reply}
use obs_osc.Objects.Reading.{ReplyKeeps}
use obs_osc.Controls.Reading.{poll_answer-Keeps}
use obs_osc.Controls.Poll.{answered, poll_route, poll_dispatch}

-- Whatever is polled, OBS is not asked to change anything.
pub poll_dispatch_reads :
    (env : Env) (to : Endpoint) (a : Bytes) (u : Ui) → (poll_dispatch env to a u).0.calls ≡ u.calls
unfolding poll_dispatch reply
poll_dispatch_reads env to a u =
    poll_answer-Keeps (λ v. v.calls ≡ u.calls) env to (λ address args v h. h) a
      (record u { out = begin_batch u.out to }) refl

-- The batch is open for this client, and the server has not been touched.
Collecting : Endpoint → Server → Ui → Type 0
Collecting to s u = (u.out.batch.active ≡ true) × (u.out.batch.to ≡ to) × (u.out.server ≡ s)

reply-Collecting : (to : Endpoint) (s : Server) → ReplyKeeps (Collecting to s) to
unfolding reply Collecting
reply-Collecting to s address args u (active, same, server) =
    let matches : (u.out.batch.active && endpoint_same u.out.batch.to to) ≡ true =
      rw (active, same) (endpoint_same_refl to) in
    rw matches (active, same, server)

length-batch_datagrams : (ms : List Bytes) → length (batch_datagrams ms) ≤ 1
unfolding batch_datagrams
length-batch_datagrams [] = omega arith
length-batch_datagrams (m ∷ []) = omega arith
length-batch_datagrams (m ∷ n ∷ ms) = omega arith

-- The replies that the visitors of a poll make, in the order of their calls of `reply`.
abbrev pub replies : Env → Endpoint → Bytes → Ui → List Bytes
replies env to a u =
    (answered env to (poll_route env to a)
      (record u { out = begin_batch u.out to })).0.out.batch.messages

-- All replies to one poll leave together: the server is given at most one datagram, for the client
-- that asked, and what it is given parses to exactly the replies, in their order. This is of replies
-- that have an address and that fit in an element of a bundle.
pub poll_dispatch_one_datagram :
    (env : Env) (to : Endpoint) (a : Bytes) (u : Ui) (ms : List OscMessage)
    → All FitsBundle ms
    → replies env to a u ≡ map built ms
    → (datagrams : List Bytes) × (length datagrams ≤ 1)
      × ((poll_dispatch env to a u).0.out.server ≡ enqueue_all u.out.server to datagrams)
      × (parse_all datagrams [] ≡ ok ms)
unfolding poll_dispatch begin_batch end_batch Collecting
poll_dispatch_one_datagram env to a u ms fits made =
    let v = (answered env to (poll_route env to a) (record u { out = begin_batch u.out to })).0 in
    let collected =
      poll_answer-Keeps (Collecting to u.out.server) env to (reply-Collecting to u.out.server) a
        (record u { out = begin_batch u.out to }) (refl, refl, refl) in
    (
      batch_datagrams v.out.batch.messages,
      length-batch_datagrams v.out.batch.messages,
      ap (λ s. enqueue_all s v.out.batch.to (batch_datagrams v.out.batch.messages)) (collected.2)
          ∙ ap (λ e. enqueue_all u.out.server e (batch_datagrams v.out.batch.messages))
              (collected.1),
      ap (λ sent. parse_all (batch_datagrams sent) []) made ∙ batch_datagrams-parse ms [] fits,
    )
