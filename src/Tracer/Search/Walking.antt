-- ===== src/Tracer/Search/Walking.antt =====
-- The rounds of `traceSameChain` in internal/tracer/tracer.go grow the search, and end.
use eth_fund_trace.Prelude.{
  ℕ, ◌≡◌, refl, ◌∙◌, ◌||◌, not, List, [], ◌∷◌, Option, none, some, String, str_eq, leb, length, All,
  arith,
}
use eth_fund_trace.Prelude.Answers.{ok}
use eth_fund_trace.Prelude.Dict.{Dict}
use eth_fund_trace.Store.Address.{AddressIdentity}
use eth_fund_trace.Store.Analysis.{TransactionAnalysis}
use eth_fund_trace.Store.Transfer.{Transfer, CounterpartySummary}
use eth_fund_trace.Tracer.Types.{Node, BranchState, AnalyzedConversion, ConversionAggregate}
use eth_fund_trace.Tracer.Identity.{node_terminal}
use eth_fund_trace.Tracer.Search.{
  trace_transfer_record_cap, TraceGraph, Search, goes, set_data_status, set_nodes,
}
use eth_fund_trace.Tracer.Search.Endpoints.{change_edge}
use eth_fund_trace.Tracer.Search.Convert.{
  conversion_of, aggregate_conversions, identify_next, mark_thorchain_vault,
}
use eth_fund_trace.Tracer.Facts.{merge_existing_swap_legs}
use eth_fund_trace.Tracer.Search.Rounds.{
  summaries_of, aggregate_summaries, conversion_state, enters_contract, end_branch, end_unmatched,
  transfer_query, expand_transfers, expand_groups, name_edges, expand_converted, expand_conversion,
  expand_contract, expand_branch, visit_branch, visit_branches, start_round, close_round, round,
}
use eth_fund_trace.Tracer.Search.Touched.{native, native-set_node_terminal, native-set_protocol}
use eth_fund_trace.Tracer.Search.Calls.{
  Touched, Rule, Holds, choose-Holds, touch_nodes, read_from-Answered, read_from-Holds,
  write_to-Holds,
}
use eth_fund_trace.Tracer.Search.Grown.{Grown, Grown-trans, Touched-Grown}
use eth_fund_trace.Tracer.Search.Following.{Known, Wants, Grown-onto, and_then-Grows, expand-Grows}

abbrev pub AllGroups : (CounterpartySummary → Type 0) → Dict (List ConversionAggregate) → Type 0
AllGroups P [] = Unit {0}
AllGroups P ((asset, aggregates) ∷ groups) =
    All P (aggregate_summaries aggregates) × AllGroups P groups

-- Every branch that the transfers and the conversions of a branch lead to has one of the keys.
pub record FiniteBranches {W E : Type 0} (g : TraceGraph W E) (chain : String) (Counted : Type 0)
    (keys : List String) : Type 0 where
  pub transfers_known :
      (state : BranchState) (transfers : List Transfer) (w : W)
      → (g.query_transfers (transfer_query chain state) w).0 ≡ ok transfers
      → All (Known chain state.direction Counted keys) (summaries_of transfers)
  pub conversions_known :
      (state : BranchState) (analysis : TransactionAnalysis) (conversion : AnalyzedConversion)
      (w : W)
      → (g.analyze_transaction chain state.entering_tx.tx_hash w).0 ≡ ok analysis
      → conversion_of analysis (conversion_state state) state.entering_tx.tx_hash ≡ some conversion
      → AllGroups
          (Known chain state.direction Counted keys)
          (aggregate_conversions (conversion ∷ []))

length-identify_next :
    (address : String) (identity : AddressIdentity) (states : List BranchState)
    → length (identify_next address identity states) ≡ length states
unfolding identify_next
length-identify_next address identity [] = refl
length-identify_next address identity (state ∷ states) =
    let rest = length-identify_next address identity states in omega (arith, rest)

native-end_unmatched :
    (addresses expanded : List String) (nodes : List Node)
    → native (end_unmatched addresses expanded nodes) ≡ native nodes
unfolding end_unmatched
native-end_unmatched [] expanded nodes = refl
native-end_unmatched (address ∷ addresses) expanded nodes =
    native-end_unmatched addresses expanded _
    ∙ ground (arith, native-set_node_terminal nodes address "no_matching_transfers")

module _ {W E : Type 0} (rule : Rule E) (g : TraceGraph W E) (chain : String) (through : ℕ)
    (Counted : Type 0) (keys : List String) (wants : Wants rule g chain through) where
  same-Grown : (s : Search W) → Grown Counted keys s s
  same-Grown s = Touched-Grown Counted keys s s (refl, refl, refl, (refl, refl))

  end_branch-Grown :
      (state : BranchState) (reason : String) (s : Search W)
      → Grown Counted keys s (end_branch state reason s)
  unfolding end_branch set_nodes
  end_branch-Grown state reason s = Touched-Grown Counted keys s _ (
      touch_nodes s s _ (refl, refl, refl, (refl, refl))
        (native-set_node_terminal s.result.nodes state.address reason))

  expand_transfers-Grows :
      (depth : ℕ) (state : BranchState) (transfers : List Transfer) (s : Search W)
      → All (Known chain state.direction Counted keys) (summaries_of transfers)
      → Holds rule (Grown Counted keys s) (expand_transfers g chain through depth state transfers s)
  unfolding expand_transfers set_data_status
  expand_transfers-Grows depth state transfers s known =
      choose-Holds rule (Grown Counted keys s) (leb trace_transfer_record_cap (length transfers)) _
        _
        (λ many.
          Grown-trans Counted keys (Touched-Grown Counted keys s _ (refl, refl, refl, (refl, refl)))
            (end_branch-Grown state "high_frequency" _))
        (λ few. expand-Grows rule g chain through depth state [] Counted keys wants _ s known)

  expand_groups-Grows :
      (depth : ℕ) (state : BranchState) (groups : Dict (List ConversionAggregate)) (s : Search W)
      → AllGroups (Known chain state.direction Counted keys) groups
      → Holds rule (Grown Counted keys s) (expand_groups g chain through depth state groups s)
  unfolding expand_groups
  expand_groups-Grows depth state [] s known = same-Grown s
  expand_groups-Grows depth state ((asset, aggregates) ∷ groups) s known =
      and_then-Grows rule Counted keys s _ _
        (expand-Grows rule g chain through depth state _ Counted keys wants _ s known.0)
        (λ t. expand_groups-Grows depth state groups t known.1)

  mark_thorchain_vault-Grows :
      (address : String) (s : Search W)
      → Holds rule (Grown Counted keys s) (mark_thorchain_vault g chain address s (λ t. goes t))
  unfolding mark_thorchain_vault
  mark_thorchain_vault-Grows address s =
      let P = Grown Counted keys s in
      read_from-Holds rule P s _ _ _ (refl, refl, refl, (refl, refl))
        (λ found t touched. write_to-Holds rule P s _ _ _ touched (λ u touched'.
          Grown-trans Counted keys (Touched-Grown Counted keys s u touched') (record {
            limit =
                λ b. (omega (arith, native-set_protocol chain address _ u.result.nodes, b.0), b.1);
            once = λ v. v;
            progress = λ c. omega (arith, length-identify_next address _ u.next);
          })))

  name_edges-Grows :
      (start : ℕ) (conversion : AnalyzedConversion) (s : Search W)
      → Holds rule (Grown Counted keys s) (name_edges g chain through start conversion s)
  unfolding name_edges
  name_edges-Grows start conversion s =
      let P = Grown Counted keys s in
      choose-Holds rule P (str_eq conversion.protocol "") _ _ (λ plain. same-Grown s)
        (λ named.
          choose-Holds rule P (str_eq conversion.vault_address "") _ _
            (λ direct. Touched-Grown Counted keys s _ (refl, refl, refl, (refl, refl)))
            (λ vault.
              Grown-onto rule Counted keys s _ _
                (Touched-Grown Counted keys s _ (refl, refl, refl, (refl, refl)))
                (mark_thorchain_vault-Grows conversion.vault_address _)))

  expand_conversion-Grows :
      (depth : ℕ) (state : BranchState) (found : Option AnalyzedConversion) (s : Search W)
      → ((conversion : AnalyzedConversion)
          → found ≡ some conversion
          → AllGroups
              (Known chain state.direction Counted keys)
              (aggregate_conversions (conversion ∷ [])))
      → Holds rule (Grown Counted keys s) (expand_conversion g chain through depth state found s)
  unfolding expand_conversion expand_converted
  expand_conversion-Grows depth state none s known = end_branch-Grown state "ambiguous_conversion" s
  expand_conversion-Grows depth state (some conversion) s known =
      choose-Holds rule (Grown Counted keys s)
        (merge_existing_swap_legs s.result.edges conversion).0 _ _
        (λ merged. Touched-Grown Counted keys s _ (refl, refl, refl, (refl, refl)))
        (λ apart.
          and_then-Grows rule Counted keys s _ _
            (expand_groups-Grows depth _ _ s (known conversion refl))
            (λ t. name_edges-Grows _ conversion t))

  module _ (finite : FiniteBranches g chain Counted keys) where
    expand_branch-Grows :
        (depth : ℕ) (state : BranchState) (s : Search W)
        → Holds rule (Grown Counted keys s) (expand_branch g chain through depth state s)
    unfolding expand_branch expand_contract change_edge
    expand_branch-Grows depth state s =
        let P = Grown Counted keys s in
        let here : Touched s s = (refl, refl, refl, (refl, refl)) in
        choose-Holds rule P (enters_contract state) _ _
          (λ contract.
            choose-Holds rule P
              (g.existing_data_only
                || (not g.has_analyzer
                    || (not (str_eq chain "ethereum") || str_eq state.entering_tx.tx_hash "")))
              _ _ (λ unsupported. end_branch-Grown state "unsupported_contract" s)
              (λ supported. read_from-Answered rule P s _ _ _ here (λ analysis t answer touched.
                Grown-onto rule Counted keys s t _ (Touched-Grown Counted keys s t touched) (
                  expand_conversion-Grows depth state _ t (λ conversion found.
                    finite.conversions_known state analysis conversion _ answer found)))))
          (λ plain. read_from-Answered rule P s _ _ _ here (λ transfers t answer touched.
            Grown-onto rule Counted keys s t _ (Touched-Grown Counted keys s t touched) (
              expand_transfers-Grows depth state transfers t
                (finite.transfers_known state transfers _ answer))))

    visit_branch-Grows :
        (depth : ℕ) (state : BranchState) (error : Option E) (s : Search W)
        → Holds rule (Grown Counted keys s) (visit_branch g chain through depth state error s)
    unfolding visit_branch
    visit_branch-Grows depth state (some e) s = rule.free e
    visit_branch-Grows depth state none s =
        choose-Holds rule (Grown Counted keys s) (node_terminal s.result.nodes state.address) _ _
          (λ ended. same-Grown s)
          (λ going_on.
            Grown-onto rule Counted keys s _ _
              (Touched-Grown Counted keys s _ (refl, refl, refl, (refl, refl)))
              (expand_branch-Grows depth state _))

    visit_branches-Grows :
        (depth : ℕ) (states : List BranchState) (s : Search W)
        → Holds rule (Grown Counted keys s) (visit_branches g chain through depth states s)
    unfolding visit_branches
    visit_branches-Grows depth [] s = same-Grown s
    visit_branches-Grows depth (state ∷ states) s =
        and_then-Grows rule Counted keys s _ _ (visit_branch-Grows depth state _ s)
          (λ t. visit_branches-Grows depth states t)

    pub round-Grows :
        (depth : ℕ) (frontier : List BranchState) (s : Search W)
        → Holds rule
            (Grown Counted keys (start_round g chain through s))
            (round g chain through depth frontier s)
    unfolding round close_round set_nodes
    round-Grows depth frontier s =
        and_then-Grows rule Counted keys _ _ _ (visit_branches-Grows depth _ _) (λ t.
          Touched-Grown Counted keys t _ (
            touch_nodes t t _ (refl, refl, refl, (refl, refl))
              (native-end_unmatched t.processed t.expanded t.result.nodes)))
