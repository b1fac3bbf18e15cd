-- ===== src/Tracer/Extension/Again.antt =====
-- `MergeResults` of internal/tracer/extension.go, applied a second time to the same extension.
use eth_fund_trace.Prelude.{◌≡◌, arith}
use eth_fund_trace.Tracer.Types.{TraceResult}
use eth_fund_trace.Tracer.Extension.{
  label_key, edge_key, path_key, money_transfer_key, merge_results,
}
use eth_fund_trace.Tracer.Extension.Unique.{append_unique_twice}

-- Merging the same extension a second time adds no label, edge, path or money transfer, and leaves
-- the data status as it is.
pub merge_results_twice :
    (root extension : TraceResult)
    → let once = merge_results root extension in
      let twice = merge_results once extension in
      (twice.labels ≡ once.labels)
      × (twice.edges ≡ once.edges)
      × (twice.paths ≡ once.paths)
      × (twice.money_transfers ≡ once.money_transfers)
      × (twice.data_status ≡ once.data_status)
unfolding merge_results
merge_results_twice root extension = (
  append_unique_twice label_key root.labels extension.labels,
  append_unique_twice edge_key root.edges extension.edges,
  append_unique_twice path_key root.paths extension.paths,
  append_unique_twice money_transfer_key root.money_transfers extension.money_transfers,
  ground arith,
)
