-- ===== src/Indexer/Events/Routing.antt =====
-- Which logs are decoded.
use gin_demo.Prelude.{
  ◌≡◌, refl, sym, true, Option, none, some, List, [], ◌∷◌, find_first, Bool-cases, inl, inr,
}
use gin_demo.Prelude.Text.{Text, to_lower}
use gin_demo.Sql.{Result, ok, err}
use gin_demo.Indexer.Events.{
  AbiEvent, Log, WatchedContract, EventRegistry, ParsedEvent, Args, is_allowed, at_address,
  with_data, with_topics, event_of, parsed_event, parse_event, parse_at, parse_topics, parse_log,
}

-- The event comes from the log: its contract is watched, the contract's ABI knows the first topic, and
-- the event is one of those that are wanted.
pub record Routed (r : EventRegistry) (lg : Log) (p : ParsedEvent) : Type 0 where
  pub contract : WatchedContract
  pub watched : find_first (at_address lg.address) r.by_address ≡ some contract
  pub event : AbiEvent
  pub known : contract.parsed.event_by_id p.topic0 ≡ some event
  pub allowed : is_allowed contract event ≡ true
  pub named : p.event_name ≡ event.name
  pub addressed : p.contract_address ≡ to_lower lg.address

module _ (r : EventRegistry) (lg : Log) (p : ParsedEvent) where
  parsed-fields :
      (event : AbiEvent) (topic0 : Text) (args : Result Args)
      → parsed_event r event lg topic0 args ≡ ok (some p)
      → (p.topic0 ≡ topic0)
        × (p.event_name ≡ event.name)
        × (p.contract_address ≡ to_lower lg.address)
  parsed-fields event topic0 (err e) h = cc
  parsed-fields event topic0 (ok args) h =
      let same : event_of r event lg topic0 args ≡ p = cc in rw (sym same) (refl, refl, refl)

  parse_event-Routed :
      (w : WatchedContract) (topic0 : Text) (rest : List Text) (found : Option AbiEvent)
      → find_first (at_address lg.address) r.by_address ≡ some w
      → w.parsed.event_by_id topic0 ≡ found
      → parse_event r w lg topic0 rest found ≡ ok (some p)
      → Routed r lg p
  parse_event-Routed w topic0 rest none watched known h = cc
  parse_event-Routed w topic0 rest (some event) watched known h =
      elim (Bool-cases (is_allowed w event)) [
        | inr unwanted ↦ cc (rw unwanted at h)
        | inl allowed ↦
            let fields =
              parsed-fields event topic0 (with_topics w event rest (with_data w event lg))
                (rw allowed at h) in
            record {
              contract = w;
              watched = watched;
              event = event;
              known = rw (fields.0) known;
              allowed = allowed;
              named = fields.1;
              addressed = fields.2;
            }
      ]

  parse_at-Routed :
      (topic0 : Text) (rest : List Text) (found : Option WatchedContract)
      → find_first (at_address lg.address) r.by_address ≡ found
      → parse_at r lg topic0 rest found ≡ ok (some p)
      → Routed r lg p
  parse_at-Routed topic0 rest none watched h = cc
  parse_at-Routed topic0 rest (some w) watched h =
      parse_event-Routed w topic0 rest (w.parsed.event_by_id topic0) watched refl h

  parse_topics-Routed :
      (topics : List Text) → parse_topics r lg topics ≡ ok (some p) → Routed r lg p
  parse_topics-Routed [] h = cc
  parse_topics-Routed (topic0 ∷ rest) h =
      parse_at-Routed topic0 rest (find_first (at_address lg.address) r.by_address) refl h

-- A log is decoded to an event only if its contract is watched, the contract's ABI knows the log's
-- first topic, and the event is one of those that are wanted of the contract.
pub parse_log-Routed :
    (r : EventRegistry) (lg : Log) (p : ParsedEvent) → parse_log r lg ≡ ok (some p) → Routed r lg p
unfolding parse_log
parse_log-Routed r lg p h = parse_topics-Routed r lg p lg.topics h
