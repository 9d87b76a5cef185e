-- ===== src/Mica/Socket/Chunks.antt =====
-- pkg/libmica/socket.go: the answer of micad does not depend on how the connection cuts it.
use micrun.Prelude.{
  List, [], ◌∷◌, ◌++◌, ◌≡◌, ◌≢◌, refl, Bool, true, false, some, Bytes, arith, All, map, Bool-cases,
  inl, inr, append_assoc, append-nil,
}
use mathlib.Core.List.{flatten}
use micrun.Mica.Host.{chunk}
use micrun.Mica.Socket.{
  has_prefix, contains, mica_success, mica_failed, success, failure, receive, rx,
}

has_prefix-append : (word s t : Bytes) → has_prefix word s ≡ true → has_prefix word (s ++ t) ≡ true
has_prefix-append [] s t h = refl
has_prefix-append (a ∷ word) [] t h = cc
has_prefix-append (a ∷ word) (c ∷ s) t h = ground (arith, has_prefix-append word s t)

contains_nil : (s : Bytes) → contains [] s ≡ true
contains_nil [] = refl
contains_nil (c ∷ s) = refl

contains-append : (word s t : Bytes) → contains word s ≡ true → contains word (s ++ t) ≡ true
contains-append [] [] t h = contains_nil t
contains-append (a ∷ word) [] t h = cc
contains-append word (c ∷ s) t h =
    ground (arith, has_prefix-append word (c ∷ s) t, contains-append word s t)

-- A word that is not in the whole is not in its beginning.
not_contains : (word s t : Bytes) → contains word (s ++ t) ≡ false → contains word s ≡ false
not_contains word s t h = ground (arith, contains-append word s t)

module _ (response bytes : Bytes) (rest : List Bytes) (word : Bytes) (answer : Bool) where
  -- The whole, with one more chunk received.
  pass_on :
      contains word (response ++ (bytes ++ flatten rest)) ≡ answer
      → contains word ((response ++ bytes) ++ flatten rest) ≡ answer
  pass_on h = rw (append_assoc response bytes (flatten rest)) h

-- A success that is still to come is found, if the whole has no failure.
receive-success :
    (response : Bytes) (chunks : List Bytes)
    → All (λ c. c ≢ []) chunks
    → contains mica_failed (response ++ flatten chunks) ≡ false
    → contains mica_success response ≡ false
    → contains mica_success (response ++ flatten chunks) ≡ true
    → receive response (map chunk chunks) ≡ some success
unfolding receive flatten
receive-success response [] _ hf hn hs = absurd (ground (arith, append-nil response))
receive-success response ([] ∷ cs) (hc, h) hf hn hs = absurd (hc refl)
receive-success response ((b ∷ c) ∷ cs) (hc, h) hf hn hs =
    let hf' = pass_on response (b ∷ c) cs mica_failed false hf in
    let hs' = pass_on response (b ∷ c) cs mica_success true hs in
    let none_yet = not_contains mica_failed (response ++ (b ∷ c)) (flatten cs) hf' in
    elim (Bool-cases (contains mica_success (response ++ (b ∷ c)))) [
      | inl found ↦ rw (none_yet, found) refl
      | inr absent ↦
          rw (none_yet, absent) (receive-success (response ++ (b ∷ c)) cs h hf' absent hs')
    ]

-- A failure that is still to come is found, if the whole has no success.
receive-failure :
    (response : Bytes) (chunks : List Bytes)
    → All (λ c. c ≢ []) chunks
    → contains mica_success (response ++ flatten chunks) ≡ false
    → contains mica_failed response ≡ false
    → contains mica_failed (response ++ flatten chunks) ≡ true
    → receive response (map chunk chunks) ≡ some failure
unfolding receive flatten
receive-failure response [] _ hf hn hs = absurd (ground (arith, append-nil response))
receive-failure response ([] ∷ cs) (hc, h) hf hn hs = absurd (hc refl)
receive-failure response ((b ∷ c) ∷ cs) (hc, h) hf hn hs =
    let hf' = pass_on response (b ∷ c) cs mica_success false hf in
    let hs' = pass_on response (b ∷ c) cs mica_failed true hs in
    let none_yet = not_contains mica_success (response ++ (b ∷ c)) (flatten cs) hf' in
    elim (Bool-cases (contains mica_failed (response ++ (b ∷ c)))) [
      | inl found ↦ rw found refl
      | inr absent ↦
          rw (absent, none_yet) (receive-failure (response ++ (b ∷ c)) cs h hf' absent hs')
    ]

-- However the answer of micad is cut into chunks that are not empty: if it holds MICA-SUCCESS and
-- not MICA-FAILED, rx gives the success, and the failure if it holds MICA-FAILED and not MICA-SUCCESS.
pub rx-chunks :
    (chunks : List Bytes)
    → All (λ c. c ≢ []) chunks
    → let whole = flatten chunks in
      (contains mica_failed whole ≡ false
        → contains mica_success whole ≡ true
        → rx (map chunk chunks) ≡ some success)
      × (contains mica_success whole ≡ false
          → contains mica_failed whole ≡ true
          → rx (map chunk chunks) ≡ some failure)
unfolding rx
rx-chunks chunks h = (
  λ hf hs. receive-success [] chunks h hf refl hs,
  λ hs hf. receive-failure [] chunks h hs refl hf,
)
