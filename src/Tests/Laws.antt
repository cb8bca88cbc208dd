-- ===== src/Tests/Laws.antt =====
-- The header maps of the sample keep the laws.
use mathlib.Core.List.{append-nil}
use partly_proxy.Base.{
  arith, String, Bytes, Bool, true, false, List, [], ◌∷◌, ◌++◌, ◌≡◌, refl, ◌∙◌, eq_iff, ◌==◌,
  if◌then◌else◌,
}
use partly_proxy.Http.{HeaderLaws, values_of}
use partly_proxy.Tests.Sample.{sample_http, without}

values_of-append :
    (k : String) (xs ys : List (String × Bytes))
    → values_of k (xs ++ ys) ≡ values_of k xs ++ values_of k ys
values_of-append k [] ys = refl
values_of-append k ((j, v) ∷ xs) ys = ground (arith, values_of-append k xs ys)

values_of-without :
    (m : List (String × Bytes)) (k j : String)
    → values_of j (without m k) ≡ (if k == j then [] else values_of j m)
values_of-without [] k j = ground arith
values_of-without ((i, v) ∷ m) k j =
    ground (arith, eq_iff i k, eq_iff i j, eq_iff k j, values_of-without m k j)

values_of-insert :
    (m : List (String × Bytes)) (k j : String) (v : Bytes)
    → values_of j (without m k ++ (k, v) ∷ []) ≡ (if k == j then v ∷ [] else values_of j m)
values_of-insert m k j v =
    values_of-append j (without m k) ((k, v) ∷ []) ∙ rw (values_of-without m k j) (joined (k == j))
  where
    joined :
        (b : Bool)
        → (if b then [] else values_of j m) ++ (if b then v ∷ [] else [])
          ≡ (if b then v ∷ [] else values_of j m)
    joined true = refl
    joined false = append-nil (values_of j m)

pub sample_laws : HeaderLaws sample_http
sample_laws = record {
  all_no_headers = λ k. refl;
  all_insert = λ m k j v. values_of-insert m k j v;
  all_remove = λ m k j. values_of-without m k j;
  all_iter = λ m k. refl;
}
