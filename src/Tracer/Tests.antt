-- ===== src/Tracer/Tests.antt =====
-- The money ledger at fixed states.
use eth_fund_trace.Prelude.Dict.{lookup, insert}
use eth_fund_trace.Text.{join, to_lower}
use eth_fund_trace.Text.Decimal.{set_string, int_string}
use eth_fund_trace.Tracer.Money.{
  take_from_queue, available_of, set_remaining, state_at, queue_of, state_before, money_key,
}
use eth_fund_trace.Prelude.{some}
use eth_fund_trace.Prelude.Int.{pos}
use eth_fund_trace.Tracer.Money.Queue.{IsQueue}
use eth_fund_trace.Tracer.Money.Taken.{Taken}
use eth_fund_trace.Tracer.Money.Drained.{Drained, take_from_queue_drains}
use eth_fund_trace.Tracer.Ledger.{note_states}
use eth_fund_trace.Tracer.Ledger.Posting.{IsMatched}
use eth_fund_trace.Tracer.Ledger.Balance.{Posted, note_states_balance}
use eth_fund_trace.Tracer.Extension.{keys_of, is_seen, unseen, append_unique, path_key}
use eth_fund_trace.Tracer.Extension.Unique.{distinct, append_unique-distinct}
use eth_fund_trace.Prelude.{
  String, In, ◌++◌, length, ◌||◌, arith, ◌+◌, ◌≡◌, refl, All, List, [], ◌∷◌, true,
}
use eth_fund_trace.Text.Decimal.{nat_string}
use eth_fund_trace.Store.Money.{MoneyState}
use eth_fund_trace.Tracer.Money.{consume_money_states}
use eth_fund_trace.Tracer.Money.Queue.{sum, incoming_left}
use eth_fund_trace.Tracer.Money.Conservation.{
  IsFresh, incoming_amount, outgoing_amount, outgoing_left,
}
use eth_fund_trace.Tracer.Money.Balance.{consume_money_states_conserves}

abbrev incoming : MoneyState
incoming = record {
  chain = "ethereum";
  address = "0xa";
  direction = "in";
  asset_type = "eth";
  asset = "ETH";
  amount = "10";
  remaining_amount = "10";
  entry_tx_hash = "0x1";
  entry_block = 1;
  path = [];
  evidence = "";
  inferred = true;
  stop_reason = "";
}

abbrev outgoing : MoneyState
outgoing = record incoming {
  direction = "out";
  amount = "7";
  remaining_amount = "7";
  entry_block = 2;
}

abbrev ten_in_seven_out : List MoneyState
ten_in_seven_out = incoming ∷ outgoing ∷ []

ten : "10" ≡ nat_string 10
unfolding nat_string
ten = refl

seven : "7" ≡ nat_string 7
unfolding nat_string
seven = refl

fresh : All IsFresh ten_in_seven_out
fresh = (
  record { number = 10; amount = ten; unspent = ten },
  (record { number = 7; amount = seven; unspent = seven }, tt),
)

consume_money_states_conserves_example :
    let after = consume_money_states ten_in_seven_out in
    (sum (incoming_left "0xa|eth") after + sum (outgoing_amount "0xa|eth") ten_in_seven_out
      ≡ sum (incoming_amount "0xa|eth") ten_in_seven_out + sum (outgoing_left "0xa|eth") after)
    × (sum (incoming_amount "0xa|eth") after ≡ sum (incoming_amount "0xa|eth") ten_in_seven_out)
    × (sum (outgoing_amount "0xa|eth") after ≡ sum (outgoing_amount "0xa|eth") ten_in_seven_out)
consume_money_states_conserves_example =
    consume_money_states_conserves ten_in_seven_out "0xa|eth" fresh

matched : All IsMatched ten_in_seven_out
matched = (
  record {
    number = 10;
    left = 10;
    within = omega arith;
    amount = ten;
    remaining = ten;
    direction = refl;
  },
  (
    record {
      number = 7;
      left = 7;
      within = omega arith;
      amount = seven;
      remaining = seven;
      direction = refl;
    },
    tt,
  ),
)

note_states_balance_example :
    Posted
      (sum (incoming_amount "0xa|eth") ten_in_seven_out)
      (sum (outgoing_amount "0xa|eth") ten_in_seven_out)
      (sum (outgoing_left "0xa|eth") ten_in_seven_out)
      (lookup "0xa|eth" (note_states ten_in_seven_out []))
note_states_balance_example = note_states_balance ten_in_seven_out "0xa|eth" matched

abbrev known_paths : List (List String)
known_paths = ("0xa" ∷ "0xb" ∷ []) ∷ ("0xa" ∷ "0xc" ∷ []) ∷ []

abbrev more_paths : List (List String)
more_paths = ("0xa" ∷ "0xc" ∷ []) ∷ ("0xa" ∷ "0xd" ∷ []) ∷ []

known_paths-distinct : distinct (keys_of path_key known_paths) ≡ true
unfolding distinct keys_of path_key join
known_paths-distinct = refl

append_unique-distinct_example :
    let result = append_unique path_key known_paths more_paths in
    ((added : List (List String)) × (result ≡ known_paths ++ added)
      × ((x : List String) → In x added → In x more_paths))
    × (distinct (keys_of path_key result) ≡ true)
    × ((k : String)
        → is_seen k (keys_of path_key result)
          ≡ (is_seen k (keys_of path_key known_paths) || is_seen k (keys_of path_key more_paths)))
append_unique-distinct_example =
    append_unique-distinct path_key known_paths more_paths known_paths-distinct

three_paths : length (append_unique path_key known_paths more_paths) ≡ 3
unfolding append_unique unseen keys_of path_key join
three_paths = refl

abbrev after_first : List MoneyState
after_first =
    record incoming { remaining_amount = "0" }
    ∷ record outgoing { amount = "10"; remaining_amount = "0" }
    ∷ []

-- A matched pair, matched again.
matched_again :
    consume_money_states after_first
    ≡ record incoming { remaining_amount = "0" }
      ∷ record outgoing { amount = "10"; remaining_amount = "10" }
      ∷ []
unfolding consume_money_states take_from_queue available_of set_remaining state_at queue_of lookup
    insert state_before money_key to_lower set_string int_string
matched_again = refl

incoming_key : money_key incoming ≡ "0xa|eth"
unfolding money_key to_lower
incoming_key = refl

first_state : state_at 0 ten_in_seven_out ≡ some incoming
unfolding state_at
first_state = refl

one_incoming : IsQueue "0xa|eth" ten_in_seven_out (0 ∷ [])
one_incoming = (
  record {
    state = incoming;
    at = first_state;
    incoming = refl;
    of_key = incoming_key;
    left = 10;
    remaining = ten;
  },
  tt,
)

take_from_queue_drains_example :
    Drained (0 ∷ []) ten_in_seven_out (take_from_queue (pos 7) (0 ∷ []) ten_in_seven_out)
    × Taken "0xa|eth" 7 ten_in_seven_out (take_from_queue (pos 7) (0 ∷ []) ten_in_seven_out)
take_from_queue_drains_example =
    take_from_queue_drains "0xa|eth" 7 (0 ∷ []) ten_in_seven_out one_incoming
