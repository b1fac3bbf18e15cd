-- ===== src/Tracer/Ledger.antt =====
-- `buildLedgers` of internal/tracer/tracer.go: what is explained per address and asset. The code
-- lists the ledgers out of a map and sorts them; here a ledger stands where its key came first
-- until the list is sorted.
pub mod Posting
pub mod Balance
use Prim.Native.String.{◌++◌ as append}
use eth_fund_trace.Prelude.{
  Bool, true, false, not, List, [], ◌∷◌, Option, none, some, String, str_eq, if◌then◌else◌,
}
use eth_fund_trace.Prelude.Dict.{Dict, lookup, insert}
use eth_fund_trace.Store.Money.{MoneyState, AssetLedger}
use eth_fund_trace.Tracer.Money.{add_decimal, subtract_decimal, money_key, str_ltb, stable_sort}

unfoldable pub new_ledger : MoneyState → AssetLedger
new_ledger s = record {
  address = s.address;
  asset = s.asset;
  opening_amount = "0";
  incoming_amount = "0";
  outgoing_amount = "0";
  explained_amount = "0";
  unexplained_amount = "0";
  status = "complete";
}

unfoldable pub ledger_or_new : MoneyState → Option AssetLedger → AssetLedger
ledger_or_new s none = new_ledger s
ledger_or_new s (some ledger) = ledger

-- What one state adds to its ledger.
unfoldable pub add_to_ledger : MoneyState → AssetLedger → AssetLedger
add_to_ledger s ledger =
    if str_eq s.direction "out"
    then record ledger {
      outgoing_amount = add_decimal ledger.outgoing_amount s.amount;
      unexplained_amount = add_decimal ledger.unexplained_amount s.remaining_amount;
      opening_amount = add_decimal ledger.unexplained_amount s.remaining_amount;
      explained_amount =
          add_decimal ledger.explained_amount (subtract_decimal s.amount s.remaining_amount);
      status = if str_eq s.remaining_amount "0" then ledger.status else "partial";
    }
    else record ledger { incoming_amount = add_decimal ledger.incoming_amount s.amount }

-- One round of the loop.
unfoldable pub note_state : MoneyState → Dict AssetLedger → Dict AssetLedger
note_state s ledgers = elim (str_eq s.amount "") [
  | true ↦ ledgers
  | false ↦
      let key = money_key s in
      insert key (add_to_ledger s (ledger_or_new s (lookup key ledgers))) ledgers
]

unfoldable pub note_states : List MoneyState → Dict AssetLedger → Dict AssetLedger
note_states [] ledgers = ledgers
note_states (s ∷ ss) ledgers = note_states ss (note_state s ledgers)

unfoldable pub ledger_before : AssetLedger → AssetLedger → Bool
ledger_before a b = str_ltb (append a.address a.asset) (append b.address b.asset)

unfoldable pub ledgers_of : Dict AssetLedger → List AssetLedger
ledgers_of [] = []
ledgers_of ((key, ledger) ∷ rest) = ledger ∷ ledgers_of rest

unfoldable pub build_ledgers : List MoneyState → List AssetLedger
build_ledgers states = stable_sort ledger_before (ledgers_of (note_states states []))
