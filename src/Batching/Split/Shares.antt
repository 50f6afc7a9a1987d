-- ===== src/Batching/Split/Shares.antt =====
-- src/DynamicBatcher.cpp, `splitExecutionResponse`: the response that each request of a batch gets.
use neuriplo_kserve_runtime.Prelude.{
  ℕ, zero, suc, ◌+◌, ◌*◌, ◌≤◌, ◌<◌, ◌^◌, true, List, [], ◌∷◌, ◌++◌, map, some, ◌≡◌, refl, sym, ap,
  ◌∙◌, arith, length, take, drop, get_elem?, All, take-append_of, ap₂, drop-append_of,
  length-append,
}
use mathlib.Core.List.{append_assoc, append-nil}
use native.Mathlib.Nat.{add-mul}
use neuriplo_kserve_runtime.Request.{
  OutputTensor, ExecutionRequest, ExecutionResponse, empty_response,
}
use neuriplo_kserve_runtime.Batching.Merge.{accumulate}
use neuriplo_kserve_runtime.Batching.Split.{split_outputs, split_from, split_execution_response}
use neuriplo_kserve_runtime.Batching.Split.Rows.{
  total, Sized, rows_of, row_bytes, split_output-rows_of, accumulate_lem,
}

-- One response for each batch size, with the rows of every output behind those before.
abbrev pub rows_from : ExecutionResponse → ℕ → List ℕ → List ExecutionResponse
rows_from batched offset [] = []
rows_from batched offset (n ∷ ns) =
    record empty_response { outputs = map (rows_of offset n) batched.outputs }
    ∷ rows_from batched (offset + n) ns

split_outputs_lem :
    (ns : List ℕ) (offset n : ℕ) (os done : List OutputTensor)
    → All (Sized ns) os
    → offset + n ≤ total ns
    → split_outputs ns offset n os done
      ≡ some (record empty_response { outputs = done ++ map (rows_of offset n) os })
unfolding split_outputs
split_outputs_lem ns offset n [] done zs h = ground (arith, append-nil done)
split_outputs_lem ns offset n (o ∷ os) done (z, zs) h =
    rw (split_output-rows_of ns offset n o z h, split_outputs)
      (split_outputs_lem ns offset n os (done ++ rows_of offset n o ∷ []) zs h
        ∙ ap (λ l. some (record empty_response { outputs = l }))
            (append_assoc done (rows_of offset n o ∷ []) (map (rows_of offset n) os)))

pub record At (ns : List ℕ) (i n : ℕ) (rest : List ℕ) : Type 0 where
  pub found : get_elem? ns i ≡ some n
  pub behind : drop (suc i) ns ≡ rest
  pub offset : total (take (suc i) ns) ≡ total (take i ns) + n
  pub inside : total (take i ns) + n ≤ total ns

pub at : (ns : List ℕ) (i n : ℕ) (rest : List ℕ) → drop i ns ≡ n ∷ rest → At ns i n rest
at [] zero n rest e = absurd (cc)
at [] (suc i) n rest e = absurd (cc)
at (m ∷ ms) zero n rest e = ground arith
at (m ∷ ms) (suc i) n rest e =
    let a = at ms i n rest e in
    record {
      found = a.found;
      behind = a.behind;
      offset = omega (arith, a.offset);
      inside = omega (arith, a.inside);
    }

module _ (batched : ExecutionResponse) (ns : List ℕ) (zs : All (Sized ns) batched.outputs)
    (few : total ns < 2 ^ 64) where
  split_from_lem :
      (rest : List ℕ) (i : ℕ) (sources : List ExecutionRequest)
      → drop i ns ≡ rest
      → length sources ≡ length rest
      → split_from batched ns i sources ≡ some (rows_from batched (total (take i ns)) rest)
  unfolding split_from
  split_from_lem [] i [] e same = refl
  split_from_lem [] i (r ∷ rs) e same = absurd (omega arith)
  split_from_lem (n ∷ rest) i [] e same = absurd (omega arith)
  split_from_lem (n ∷ rest) i (r ∷ rs) e same =
      let a = at ns i n rest e in
      let so_far = accumulate_lem 0 (take i ns) (omega (arith, a.inside)) in
      let exact : accumulate 0 (take i ns) ≡ total (take i ns) = omega (arith, so_far) in
      rw (a.found, split_from)
        (rw (exact, split_outputs_lem ns (total (take i ns)) n batched.outputs [] zs a.inside)
          (rw (split_from_lem rest (suc i) rs a.behind (omega arith), a.offset)))

  -- The response to a batch whose outputs have the size that they say is split, without a fault,
  -- into as many responses as there are requests: each is a success and holds its rows of every
  -- output, in the order of the requests.
  pub split_execution_response-rows_from :
      (sources : List ExecutionRequest)
      → batched.ok ≡ true
      → length sources ≡ length ns
      → split_execution_response batched ns sources ≡ some (rows_from batched 0 ns)
  unfolding split_execution_response
  split_execution_response-rows_from sources fine same =
      simp fine (split_from_lem ns 0 sources refl same)

-- The bytes of one output in each of the shares.
abbrev pub shares : OutputTensor → ℕ → List ℕ → List (List ℕ)
shares o offset [] = []
shares o offset (n ∷ ns) = (rows_of offset n o).bytes ∷ shares o (offset + n) ns

abbrev pub joined : List (List ℕ) → List ℕ
joined [] = []
joined (x ∷ xs) = x ++ joined xs

-- Payloads that have as many bytes as the batch sizes have rows.
abbrev pub Fill : ℕ → List ℕ → List (List ℕ) → Type 0
Fill row [] [] = Unit
Fill row [] (c ∷ cs) = ⊥
Fill row (n ∷ ns) [] = ⊥
Fill row (n ∷ ns) (c ∷ cs) = (length c ≡ n * row) × Fill row ns cs

window :
    (bytes before c rest : List ℕ) {a k : ℕ}
    → bytes ≡ before ++ (c ++ rest)
    → length before ≡ a
    → length c ≡ k
    → take k (drop a bytes) ≡ c
window bytes before c rest {a} {k} e l f =
    rw (e, drop-append_of a before (c ++ rest) l) (take-append_of k c rest f)

shares_lem :
    (o : OutputTensor) (before : List ℕ) (offset : ℕ) (ns : List ℕ) (chunks : List (List ℕ))
    → o.bytes ≡ before ++ joined chunks
    → length before ≡ offset * row_bytes o
    → Fill (row_bytes o) ns chunks
    → shares o offset ns ≡ chunks
shares_lem o before offset [] [] e l f = refl
shares_lem o before offset [] (c ∷ cs) e l f = absurd f
shares_lem o before offset (n ∷ ns) [] e l f = absurd f
shares_lem o before offset (n ∷ ns) (c ∷ cs) e l f =
    ap₂ ◌∷◌ (window o.bytes before c (joined cs) e l f.0) (
      shares_lem o (before ++ c) (offset + n) ns cs (e ∙ sym (append_assoc before c (joined cs)))
        (omega (arith, length-append before c, add-mul offset n (row_bytes o), f.0)) f.1)

-- An output that joins one chunk of rows for each request is shared out by those chunks: each
-- request gets its own.
pub shares-chunks :
    (o : OutputTensor) (ns : List ℕ) (chunks : List (List ℕ))
    → o.bytes ≡ joined chunks
    → Fill (row_bytes o) ns chunks
    → shares o 0 ns ≡ chunks
shares-chunks o ns chunks e f = shares_lem o [] 0 ns chunks e (omega arith) f
