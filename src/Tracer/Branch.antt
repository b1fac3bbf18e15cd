-- ===== src/Tracer/Branch.antt =====
-- `ExtendBranch` of internal/tracer/extension.go for one anchor: the transfers of the branch are
-- followed until the amount of the anchor is spent. The database is a parameter; a needed
-- synchronisation (`AddressNotSyncedError`) and an error of the database end the loop.
pub mod Budget
use eth_fund_trace.Prelude.{
  ℕ, ◌+◌, Bool, true, false, ◌&&◌, ◌||◌, not, List, [], ◌∷◌, ◌++◌, Option, none, some, String,
  str_eq, ltb, if◌then◌else◌,
}
use eth_fund_trace.Prelude.Int.{ℤ, pos, ◌-ℤ◌, ltb_ℤ}
use eth_fund_trace.Prelude.Dict.{Dict, lookup}
use Prim.Native.String.{◌++◌ as append}
use eth_fund_trace.Text.{to_lower}
use eth_fund_trace.Text.Decimal.{set_string, int_string}
use eth_fund_trace.Store.Address.{Address, AddressIdentity}
use eth_fund_trace.Store.Label.{Label}
use eth_fund_trace.Store.Money.{MoneyState}
use eth_fund_trace.Store.Transfer.{Transfer, CounterpartySummary}
use eth_fund_trace.Tracer.Types.{Node, TraceResult}
use eth_fund_trace.Tracer.Assets.{
  supported_summary_asset, canonicalize_summary_asset, above_trace_threshold, transfer_summary,
}
use eth_fund_trace.Tracer.Identity.{
  address_covered, is_high_frequency_address, address_identity, is_known_wallet_terminal,
  has_terminal_label,
}
use eth_fund_trace.Tracer.Facts.{edge_from_summary, money_transfer}
use eth_fund_trace.Tracer.Extension.{append_node}

-- Why the loop ends early; `E` are the errors of the database.
pub data Stop (E : Type 0) : Type 0 where
  not_synced : String → String → ℕ → ℕ → Stop E
  failed : E → Stop E

pub data Reply (E A : Type 0) : Type 0 where
  ok : A → Reply E A
  stop : Stop E → Reply E A

-- `if err != nil { return }`
unfoldable pub bind : {E A B : Type 0} → Reply E A → (A → Reply E B) → Reply E B
bind (stop s) f = stop s
bind (ok a) f = f a

-- The fields of the graph that the loop reads, and the calls of the database.
pub record Graph (E : Type 0) : Type 0 where
  pub existing_data_only : Bool
  pub required_start_block : String → ℕ
  pub terminal_dependencies : Dict String
  pub find_address : String → String → Reply E (Address × Bool)
  pub list_labels : String → String → Reply E (List Label)

pub record ExtensionRequest : Type 0 where
  pub chain : String
  pub address : String
  pub direction : String
  pub depth : ℕ

unfoldable pub dependency_address_key : String → String → String
dependency_address_key chain address = to_lower (append chain (append ":" address))

-- A missing dependency reads as the empty text.
unfoldable pub dependency_stop_reason : Dict String → String → String → String
dependency_stop_reason dependencies chain address =
    elim (lookup (dependency_address_key chain address) dependencies) [ none ↦ "" | some r ↦ r ]

unfoldable pub other_side : ExtensionRequest → CounterpartySummary → String
other_side request summary =
    to_lower (if str_eq request.direction "in" then summary.from else summary.to)

-- What a transfer offers: a supported asset, an amount above the threshold, and another side.
unfoldable pub offer : ExtensionRequest → Transfer → Option CounterpartySummary
offer request transfer =
    let summary = transfer_summary transfer in
    let canonical = canonicalize_summary_asset request.chain summary in
    if supported_summary_asset summary
      && (above_trace_threshold canonical && not (str_eq (other_side request canonical) ""))
    then some canonical
    else none

-- An amount cut to the budget, if both are positive.
unfoldable pub cut_to : ℤ → Option ℤ → Option ℤ
cut_to budget none = none
cut_to budget (some amount) =
    if ltb_ℤ (pos 0) amount && ltb_ℤ (pos 0) budget
    then some (if ltb_ℤ budget amount then budget else amount)
    else none

unfoldable pub spend : ℤ → CounterpartySummary → Option ℤ
spend budget summary = cut_to budget (set_string summary.total_amount)

unfoldable pub entry_state : String → String → CounterpartySummary → List String → MoneyState
entry_state direction address summary path = record {
  chain = summary.chain;
  address = to_lower address;
  direction = direction;
  asset_type = summary.asset_type;
  asset = summary.asset;
  amount = summary.total_amount;
  remaining_amount = summary.total_amount;
  entry_tx_hash = summary.representative.tx_hash;
  entry_block = summary.representative.block_number;
  path = path;
  evidence = "transfer";
  inferred = true;
  stop_reason = "";
}

module _ {E : Type 0} (g : Graph E) (request : ExtensionRequest) (depth through : ℕ)
    (trail : List String) where
  -- The edge, the node and the money facts of a followed transfer.
  unfoldable pub record_step :
      CounterpartySummary → Address → List Label → TraceResult → TraceResult
  record_step summary metadata labels result =
      let other = other_side request summary in
      let identity = address_identity metadata in
      let wallet = is_known_wallet_terminal identity in
      let reason = dependency_stop_reason g.terminal_dependencies request.chain other in
      let path = trail ++ other ∷ [] in
      record result {
        data_status = if str_eq reason "" then result.data_status else "partial";
        edges = result.edges ++ edge_from_summary summary (depth + 1) path ∷ [];
        nodes = append_node result.nodes record {
          chain = request.chain;
          address = other;
          depth = depth + 1;
          terminal =
              metadata.is_terminal
              || (is_high_frequency_address metadata
                  || (not (str_eq reason "") || (has_terminal_label labels || wallet)));
          address_type = identity.address_type;
          protocol = identity.protocol;
          roles = identity.roles;
          stop_reason = if wallet then "terminal" else reason;
        };
        paths = result.paths ++ path ∷ [];
        money_transfers = result.money_transfers ++ money_transfer summary "" ∷ [];
        money_states =
            result.money_states
            ++ entry_state "out" summary.from summary path
              ∷ entry_state "in" summary.to summary path
              ∷ [];
      }

  -- Whether the other side has to be synchronised first.
  unfoldable pub needs_sync : CounterpartySummary → ℕ → Address → Bool → Bool
  needs_sync summary block metadata exists =
      let other = other_side request summary in
      let out = str_eq request.direction "out" in
      not (is_known_wallet_terminal (address_identity metadata))
      && (str_eq (dependency_stop_reason g.terminal_dependencies request.chain other) ""
          && (not exists
              || not (is_high_frequency_address metadata)
                && not (
                    address_covered g.existing_data_only metadata
                      (if out then block else g.required_start_block request.chain)
                      (if out then through else block))))

  unfoldable pub follow_checked :
      Bool → CounterpartySummary → ℕ → Address → TraceResult → Reply E TraceResult
  follow_checked true summary block metadata result =
      let other = other_side request summary in
      let out = str_eq request.direction "out" in
      stop (not_synced request.chain other (if out then block else 0) (if out then 0 else block))
  follow_checked false summary block metadata result =
      bind (g.list_labels request.chain (other_side request summary))
        (λ labels. ok (record_step summary metadata labels result))

  -- A transfer whose amount is spent: its other side is looked up, and it is recorded.
  unfoldable pub follow : CounterpartySummary → ℕ → TraceResult → Reply E TraceResult
  follow summary block result =
      bind (g.find_address request.chain (other_side request summary)) (λ found.
        follow_checked (needs_sync summary block found.0 found.1) summary block found.0 result)

  -- An amount that the cut brings under the threshold is spent, but not followed.
  unfoldable pub follow_above :
      Bool → CounterpartySummary → ℕ → ℤ → TraceResult → Reply E (ℤ × TraceResult)
  follow_above false spent block left result = ok (left, result)
  follow_above true spent block left result =
      bind (follow spent block result) (λ result'. ok (left, result'))

  -- The budget that is left and the result, behind one transfer.
  unfoldable pub spend_on :
      CounterpartySummary → ℕ → Option ℤ → ℤ → TraceResult → Reply E (ℤ × TraceResult)
  spend_on summary block none budget result = ok (budget, result)
  spend_on summary block (some used) budget result =
      let spent = record summary { total_amount = int_string used } in
      follow_above (above_trace_threshold spent) spent block (budget -ℤ used) result

  unfoldable pub extend_by :
      Option CounterpartySummary → ℕ → ℤ → TraceResult → Reply E (ℤ × TraceResult)
  extend_by none block budget result = ok (budget, result)
  extend_by (some summary) block budget result =
      spend_on summary block (spend budget summary) budget result

  -- The loop over the transfers, in the order of the branch.
  unfoldable pub extend_transfers : List Transfer → ℤ → TraceResult → Reply E (ℤ × TraceResult)
  extend_transfers [] budget result = ok (budget, result)
  extend_transfers (transfer ∷ transfers) budget result =
      bind (extend_by (offer request transfer) transfer.block_number budget result)
        (λ step. extend_transfers transfers step.0 step.1)
