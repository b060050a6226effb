-- ===== src/Collector/Tick/Tests.antt =====
-- The errors of two probes, and the texts that count as pressure on the RPC.
use decant_fi.Common.{◌≡◌, refl, true, false, [], ◌∷◌, some, String, codes, get_key}
use decant_fi.Common.Int.{ℤ}
use decant_fi.Core.RpcSelect.{RpcSelection, answers}
use decant_fi.Common.Texts.{starts_folded}
use decant_fi.Collector.Tick.{
  ProbeResult, sim_error_in, sim_error_here, sim_error_words, assemble, no_prices, keep_first,
  all_reasons, all_rows, sim_error_count, total_resim_errors,
}
use decant_fi.Collector.Tick.Merge.{IsUnique, all_errors, assemble_errors-IsUnique}

guard : Unit {0}
unfolding sim_error_in sim_error_here starts_folded sim_error_words assemble keep_first all_reasons
    all_rows sim_error_count total_resim_errors
guard = tt

limited : sim_error_in (codes "HTTP Rate-Limited") ≡ true
unfolding guard
limited = refl

unavailable : sim_error_in (codes "indisponible") ≡ false
unfolding guard
unavailable = refl

abbrev first : ProbeResult ℤ
first = record { rows = []; errors = ("comet", "timeout") ∷ []; resim_errors = 0 }

abbrev second : ProbeResult ℤ
second = record {
  rows = [];
  errors = ("xbull", "http 500") ∷ ("comet", "indisponible") ∷ [];
  resim_errors = 1;
}

abbrev selection : RpcSelection
selection = record {
  chosen = "https://rpc";
  probes = record { url = "https://rpc"; probed = answers 120 9 } ∷ [];
}

-- One error of the sources and one of the re-simulation are charged to the chosen endpoint.
charged :
    (assemble "a" "b" 900 "https://rpc"
      (some selection)
      31
      no_prices
      (first ∷ second ∷ [])).rpc_probes
    ≡ record {
      url = "https://rpc";
      probed = answers 120 9;
      chosen = true;
      sim_errors = 2;
      rpc_calls = 31;
    }
      ∷ []
unfolding guard
charged = refl

assemble_errors-IsUnique_example :
    (let stored =
        (assemble "a" "b" 900 "https://rpc"
          (some selection)
          31
          no_prices
          (first ∷ second ∷ [])).tick.source_errors in
      IsUnique stored
      × ((id : String) → get_key stored id ≡ get_key (all_errors (first ∷ second ∷ [])) id))
assemble_errors-IsUnique_example =
    assemble_errors-IsUnique "a" "b" 900 "https://rpc" (some selection) 31 no_prices
      (first ∷ second ∷ [])
