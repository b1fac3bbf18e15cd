-- ===== src/Store/StopReason.antt =====
-- The stop reasons that the tracer names by constants (internal/store/models.go).
use eth_fund_trace.Prelude.{String}

abbrev pub terminal : String
terminal = "terminal"

abbrev pub node_limit : String
node_limit = "node_limit"

abbrev pub no_matching_transfers : String
no_matching_transfers = "no_matching_transfers"
