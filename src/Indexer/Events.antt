-- ===== src/Indexer/Events.antt =====
-- internal/indexer/events.go: the contracts that are watched, and how a log is decoded. The `abi`
-- package, the hexadecimal texts of `common` and the reading of a file are parameters.
pub mod Routing
use gin_demo.Prelude.{
  ℕ, Bool, true, false, not, ◌||◌, ◌==◌, Option, none, some, List, [], ◌∷◌, ◌++◌, if◌then◌else◌,
  any, length, select, find_first,
}
use gin_demo.Prelude.Int.{ℤ}
use gin_demo.Prelude.Text.{Text, codes, text_eq, to_lower, is_empty, trim_space}
use gin_demo.Exchange.Wei.{big_string}
use gin_demo.Sql.{Result, ok, err, invalid_event}

-- a value as the `abi` package decodes it; any type that the program does not tell apart is known by
-- its `%v` text
pub data Arg : Type 0 where
  account : Text → Arg
  bytes : List ℕ → Arg
  word : List ℕ → Arg
  big_int : ℤ → Arg
  plain : Text → Arg
  absent : Arg
  unknown : Text → Arg

abbrev pub Args : Type 0
Args = List (Text × Arg)

-- a value after `normalizeArgs`
pub data Value : Type 0 where
  integer : ℤ → Value
  str : Text → Value
  nil : Value
  other : Text → Value

abbrev pub Values : Type 0
Values = List (Text × Value)

-- an event of an ABI: its name, and whether it has indexed inputs
pub record AbiEvent : Type 0 where
  pub name : Text
  pub has_indexed : Bool

-- `abi.ABI`, with the functions of the package that the program calls
pub record Abi : Type 0 where
  pub event_by_id : Text → Option AbiEvent
  pub unpack : Text → List ℕ → Option Args
  pub parse_topics : Text → List Text → Option Args

-- `types.Log`; an address and a hash are their `Hex()` texts
pub record Log : Type 0 where
  pub address : Text
  pub topics : List Text
  pub payload : List ℕ
  pub tx_hash : Text
  pub index : ℕ
  pub block_number : ℕ

-- `watchedContract`
pub record WatchedContract : Type 0 where
  pub address : Text
  pub parsed : Abi
  pub events : List Text

-- `EventRegistry`: the later contract of an address stands first
pub record EventRegistry : Type 0 where
  pub by_address : List WatchedContract
  pub to_hex : List ℕ → Text

-- `ParsedEvent`
pub record ParsedEvent : Type 0 where
  pub contract_address : Text
  pub event_name : Text
  pub topic0 : Text
  pub topics : List Text
  pub args : Values

-- a contract of the configuration
pub record WatchContract : Type 0 where
  pub address : Text
  pub abi : Text
  pub events : List Text

-- what `NewEventRegistry` calls outside the program
pub record Tools : Type 0 where
  pub read_abi : Text → Result Abi
  pub is_hex_address : Text → Bool
  pub hex_to_address : Text → Text
  pub to_hex : List ℕ → Text

abbrev default_erc20_abi_path : Text
default_erc20_abi_path = codes "abis/erc20.json"

abbrev pub watches_of : List WatchContract → Text → List WatchContract
watches_of watches erc20_contract =
    if is_empty (trim_space erc20_contract)
    then watches
    else watches
      ++ record {
        address = trim_space erc20_contract;
        abi = default_erc20_abi_path;
        events = codes "Transfer" ∷ codes "Approval" ∷ [];
      }
        ∷ []

abbrev abi_path : WatchContract → Text
abi_path w = if is_empty (trim_space w.abi) then default_erc20_abi_path else trim_space w.abi

abbrev pub at_address : Text → WatchedContract → Bool
at_address address w = text_eq w.address address

-- `r.byAddress[a] = w`
abbrev pub watch : WatchedContract → List WatchedContract → List WatchedContract
watch w contracts = w ∷ select (λ x. not (at_address w.address x)) contracts

abbrev watched : Tools → WatchContract → Abi → WatchedContract
watched tools w parsed = record {
  address = tools.hex_to_address (trim_space w.address);
  parsed = parsed;
  events = w.events;
}

abbrev watch_read :
    Tools → WatchContract → Result Abi → List WatchedContract → Result (List WatchedContract)
watch_read tools w (err e) contracts = err e
watch_read tools w (ok parsed) contracts = ok (watch (watched tools w parsed) contracts)

abbrev watch_next :
    Tools → WatchContract → Result (List WatchedContract) → Result (List WatchedContract)
watch_next tools w (err e) = err e
watch_next tools w (ok contracts) =
    let address = trim_space w.address in
    if is_empty address || not (tools.is_hex_address address)
    then ok contracts
    else watch_read tools w (tools.read_abi (abi_path w)) contracts

-- the loop of `NewEventRegistry`
unfoldable pub watch_all :
    Tools → List WatchContract → Result (List WatchedContract) → Result (List WatchedContract)
watch_all tools [] contracts = contracts
watch_all tools (w ∷ rest) contracts = watch_all tools rest (watch_next tools w contracts)

abbrev registry_of : Tools → Result (List WatchedContract) → Result EventRegistry
registry_of tools (err e) = err e
registry_of tools (ok contracts) = ok (record { by_address = contracts; to_hex = tools.to_hex })

-- `NewEventRegistry`
unfoldable pub new_event_registry : Tools → List WatchContract → Text → Result EventRegistry
unfolding watch_all
new_event_registry tools watches erc20_contract =
    registry_of tools (watch_all tools (watches_of watches erc20_contract) (ok []))

-- `WatchCount`
unfoldable pub watch_count : EventRegistry → ℕ
watch_count r = length r.by_address

abbrev pub normalize_arg : EventRegistry → Arg → Value
normalize_arg r (Arg.account a) = Value.str (to_lower a)
normalize_arg r (Arg.bytes b) = Value.str (codes "0x" ++ r.to_hex b)
normalize_arg r (Arg.word b) = Value.str (codes "0x" ++ r.to_hex b)
normalize_arg r (Arg.big_int z) = Value.integer z
normalize_arg r (Arg.plain s) = Value.str s
normalize_arg r Arg.absent = Value.nil
normalize_arg r (Arg.unknown s) = Value.other s

-- `normalizeArgs`
unfoldable pub normalize_args : EventRegistry → Args → Values
normalize_args r [] = []
normalize_args r ((key, v) ∷ args) = (key, normalize_arg r v) ∷ normalize_args r args

abbrev decoded : Option Args → Result Args
decoded none = err invalid_event
decoded (some args) = ok args

-- the two steps of the decoding: the data, then the indexed topics on top of it
abbrev pub with_data : WatchedContract → AbiEvent → Log → Result Args
with_data w event lg = elim lg.payload [
  | [] ↦ ok []
  | ◌∷◌ c s ↦ decoded (w.parsed.unpack event.name (c ∷ s))
]

abbrev added : Args → Result Args → Result Args
added args (err e) = err e
added args (ok more) = ok (more ++ args)

abbrev pub with_topics : WatchedContract → AbiEvent → List Text → Result Args → Result Args
with_topics w event rest (err e) = err e
with_topics w event rest (ok args) =
    if event.has_indexed
    then added args (decoded (w.parsed.parse_topics event.name rest))
    else ok args

abbrev pub event_of : EventRegistry → AbiEvent → Log → Text → Args → ParsedEvent
event_of r event lg topic0 args = record {
  contract_address = to_lower lg.address;
  event_name = event.name;
  topic0 = topic0;
  topics = lg.topics;
  args = normalize_args r args;
}

abbrev pub parsed_event :
    EventRegistry → AbiEvent → Log → Text → Result Args → Result (Option ParsedEvent)
parsed_event r event lg topic0 (err e) = err e
parsed_event r event lg topic0 (ok args) = ok (some (event_of r event lg topic0 args))

-- the events of a contract that are wanted: an empty list wants all
abbrev pub is_allowed : WatchedContract → AbiEvent → Bool
is_allowed w event = (length w.events == 0) || any (λ name. text_eq name event.name) w.events

abbrev pub parse_event :
    EventRegistry
    → WatchedContract
    → Log
    → Text
    → List Text
    → Option AbiEvent
    → Result (Option ParsedEvent)
parse_event r w lg topic0 rest none = ok none
parse_event r w lg topic0 rest (some event) =
    if is_allowed w event
    then parsed_event r event lg topic0 (with_topics w event rest (with_data w event lg))
    else ok none

abbrev pub parse_at :
    EventRegistry → Log → Text → List Text → Option WatchedContract → Result (Option ParsedEvent)
parse_at r lg topic0 rest none = ok none
parse_at r lg topic0 rest (some w) = parse_event r w lg topic0 rest (w.parsed.event_by_id topic0)

abbrev pub parse_topics : EventRegistry → Log → List Text → Result (Option ParsedEvent)
parse_topics r lg [] = ok none
parse_topics r lg (topic0 ∷ rest) =
    parse_at r lg topic0 rest (find_first (at_address lg.address) r.by_address)

-- `ParseLog`
unfoldable pub parse_log : EventRegistry → Log → Result (Option ParsedEvent)
unfolding normalize_args
parse_log r lg = parse_topics r lg lg.topics

-- `parsed.Args[key]`
unfoldable pub value_at : Text → Values → Value
value_at key [] = Value.nil
value_at key ((k, v) ∷ args) = if text_eq k key then v else value_at key args

-- `.(string)`, empty for another type
abbrev pub string_of : Value → Text
string_of (Value.str s) = s
string_of (Value.integer _) = []
string_of Value.nil = []
string_of (Value.other _) = []

-- `extractTransferAmount`
unfoldable pub extract_transfer_amount : Value → Text
extract_transfer_amount (Value.integer z) = big_string z
extract_transfer_amount (Value.str s) = s
extract_transfer_amount Value.nil = codes "0"
extract_transfer_amount (Value.other s) = s
