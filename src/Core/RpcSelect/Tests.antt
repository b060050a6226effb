-- ===== src/Core/RpcSelect/Tests.antt =====
-- A selection at concrete answers.
use decant_fi.Common.{[], ◌∷◌, String, str_eq, if◌then◌else◌}
use decant_fi.Core.RpcSelect.{Probed, answers, select_rpc}
use decant_fi.Core.RpcSelect.Selected.{IsSelected, select_rpc-IsSelected}

-- The first endpoint is slow, the second lags.
abbrev probe : String → Probed
probe url =
    if str_eq url "https://a"
    then answers 3000 100
    else if str_eq url "https://b"
    then answers 80 97
    else answers 120 99

select_rpc-IsSelected_example :
    IsSelected probe "https://a"
      ("https://a" ∷ "https://b" ∷ "https://c" ∷ [])
      (select_rpc probe ("https://a" ∷ "https://b" ∷ "https://c" ∷ [])).chosen
select_rpc-IsSelected_example =
    select_rpc-IsSelected probe "https://a" "https://b" ("https://c" ∷ [])
