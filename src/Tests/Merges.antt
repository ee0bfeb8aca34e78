-- ===== src/Tests/Merges.antt =====
-- The theorem on merged findings.
use rust_doctor.Prelude.{◌+◌, ◌≡◌, [], ◌++◌, list_ord, nat_ord}
use rust_doctor.BTree.{get}
use rust_doctor.Report.{codes}
use rust_doctor.Merge.{merge_all}
use rust_doctor.Merge.Counted.{occurrences_of, counted, merge_all-counted}
use rust_doctor.Tests.Data.{findings}

merge_all-counted_example :
    counted (get (codes "clippy::a") (merge_all (λ help. help) [] (findings ++ findings)))
    ≡ counted (get (codes "clippy::a") [])
      + occurrences_of (codes "clippy::a") (findings ++ findings)
merge_all-counted_example =
    merge_all-counted (λ help. help) [] (findings ++ findings) (codes "clippy::a")
