-- ===== src/Server/Limits.antt =====
-- How many events the event service (internal/handler/event_handler.go) returns in one response.
use Prim.Native.Nat.{min}
use temporal_durable_event_p.Base.{
  ℕ, List, [], ◌∷◌, ◌≡◌, refl, arith, length, take, length-take, map, inl, inr, drop, suc, Bool,
  ◌-◌, zero, ◌&&◌, not, count, keep, length-keep,
}
use temporal_durable_event_p.Base.Int.{ℤ, pos, negsuc}
use temporal_durable_event_p.Base.Exec.{ok, Result-cases}
use temporal_durable_event_p.Handler.Events
use temporal_durable_event_p.Handler.Events.{convert_all, default_limit}
use temporal_durable_event_p.Handler.Rpc.{Codec}
use temporal_durable_event_p.Handler.Converter.{event_to_proto}
use temporal_durable_event_p.Proto
use temporal_durable_event_p.Repository.Models.{Event}
use temporal_durable_event_p.Repository.Db.{Db, EventRow, order_desc, order_asc}
use temporal_durable_event_p.Repository.Store
use temporal_durable_event_p.Repository.Events as EventTable
use temporal_durable_event_p.Server.{event_store}
use temporal_durable_event_p.World.{World, Network}
use temporal_durable_event_p.Repository.Events.{is_pending}
use temporal_durable_event_p.Repository.Db.Ordering.{length-order_desc, length-order_asc}

length-map : {A B : Type 0} (f : A → B) (xs : List A) → length (map f xs) ≡ length xs
length-map f [] = refl
length-map f (x ∷ xs) = rw (length-map f xs) refl

length-drop : {A : Type 0} (n : ℕ) (xs : List A) → length (drop n xs) ≡ length xs - n
length-drop zero xs = omega arith
length-drop (suc n) [] = omega arith
length-drop (suc n) (x ∷ xs) = omega (arith, length-drop n xs)

-- How many events a request asks for.
abbrev pub asked : ℕ → ℤ → ℕ
asked default (pos zero) = default
asked default (pos (suc n)) = suc n
asked default (negsuc _) = default

default_limit-asked : (default : ℕ) (l : ℤ) → default_limit default l ≡ pos (asked default l)
default_limit-asked default (pos zero) = refl
default_limit-asked default (pos (suc n)) = ground arith
default_limit-asked default (negsuc n) = ground arith

module _ {Struct : Type 0} (codec : Codec Struct) (network : Network) where
  open network use {engine}

  -- A pending row that no other transaction has locked.
  abbrev pub is_free : ℕ → EventRow → Bool
  is_free n r = is_pending r && not (engine.locked n r.id)

  length-convert_all :
      (es : List Event) (evs : List (Proto.Event Struct))
      → convert_all codec (event_store network) es ≡ ok evs
      → length evs ≡ length es
  unfolding convert_all
  length-convert_all [] evs h = ground arith
  length-convert_all (e ∷ es) evs h = elim (Result-cases (event_to_proto codec e)) [
    | inl (text, bad) ↦ absurd (ground arith)
    | inr (ev, good) ↦ elim (Result-cases (convert_all codec (event_store network) es)) [
      | inl (status, bad) ↦ absurd (ground arith)
      | inr (rest, converted) ↦ ground (arith, length-convert_all es rest converted)
    ]
  ]

  length-polled :
      (n : ℕ) (db : Db) (es : List Event)
      → (Store.poll_pending_events engine (pos n) db).0 ≡ ok es
      → length es ≡ min n (count (is_free db.statements) db.events)
  unfolding Store.poll_pending_events EventTable.poll_pending_events EventTable.pending_rows
  length-polled n db es h =
      let free = keep (is_free db.statements) db.events in
      let rows = order_asc (λ (r : EventRow). r.created_at) free in
      ground (
        arith,
        length-take n rows,
        length-map EventTable.scan_event (take n rows),
        length-order_asc (λ (r : EventRow). r.created_at) free,
        length-keep (is_free db.statements) db.events,
      )

  length-listed :
      (n : ℕ) (offset : ℤ) (db : Db) (es : List Event)
      → (Store.list_events engine (pos n) offset db).0 ≡ ok es
      → (o : ℕ) × (offset ≡ pos o) × (length es ≡ min n (length db.events - o))
  unfolding Store.list_events EventTable.list_events
  length-listed n (negsuc m) db es h = absurd (ground arith)
  length-listed n (pos o) db es h =
      let rows = order_desc (λ (r : EventRow). r.created_at) db.events in
      let all : length rows ≡ length db.events =
        length-order_desc (λ (r : EventRow). r.created_at) db.events in
      (
        o,
        refl,
        ground (
          arith,
          all,
          length-take n (drop o rows),
          length-map EventTable.scan_event (take n (drop o rows)),
          length-drop o rows,
        ),
      )

  -- A response of `PollPendingEvents` has as many events as the request asks for, 10 where it asks
  -- for none or for a negative number, or, if they are fewer, all pending events that no other
  -- transaction has locked; a response of `ListEvents` likewise, with 20, and with the events behind
  -- the offset, which is not negative.
  pub responses-length :
      (limit : ℤ) (req : Proto.ListEventsRequest) (polled listed : List (Proto.Event Struct))
      (w : World)
      → (Events.poll_pending_events codec (event_store network) limit w).0 ≡ ok polled
      → (Events.list_events codec (event_store network) req w).0 ≡ ok listed
      → (length polled ≡ min (asked 10 limit) (count (is_free w.db.statements) w.db.events))
        × ((o : ℕ) × (req.offset ≡ pos o)
            × (length listed ≡ min (asked 20 req.limit) (length w.db.events - o)))
  unfolding Events.poll_pending_events Events.list_events
  responses-length limit req polled listed w hp hl = (
    elim (Result-cases (Store.poll_pending_events engine (pos (asked 10 limit)) w.db).0) [
      | inl (e, bad) ↦ absurd (ground (arith, default_limit-asked 10 limit))
      | inr (es, good) ↦ ground (
        arith,
        default_limit-asked 10 limit,
        length-polled (asked 10 limit) w.db es good,
        length-convert_all es polled,
      )
    ],
    elim (Result-cases (Store.list_events engine (pos (asked 20 req.limit)) req.offset w.db).0) [
      | inl (e, bad) ↦ absurd (ground (arith, default_limit-asked 20 req.limit))
      | inr (es, good) ↦
          let (o, offset, count) = length-listed (asked 20 req.limit) req.offset w.db es good in
          (
            o,
            offset,
            ground (arith, default_limit-asked 20 req.limit, count, length-convert_all es listed),
          )
    ],
  )
