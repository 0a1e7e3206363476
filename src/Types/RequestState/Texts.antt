-- ===== src/Types/RequestState/Texts.antt =====
-- States as their texts: the conversions lose nothing, and `==` on states is equality.
use formicary.Common.{
  ℕ, zero, suc, String, true, ◌≡◌, refl, sym, ap₂, ◌∙◌, ◌≢◌, ◌↔◌, List, [], ◌∷◌, ◌==◌, ◌&&◌, arith,
  str_eq_iff, str_eq_refl, str_eq, All,
}
use formicary.Types.RequestState.{
  RequestState, pending, constants, text, from_table, of_text, ◌is◌, is_known, other, index,
  spelling,
}

text-from_table : (cs : List RequestState) (s : String) → text (from_table cs s) ≡ s
unfolding from_table text
text-from_table [] s = refl
text-from_table (c ∷ cs) s = ground (arith, str_eq_iff (text c) s, text-from_table cs s)

-- Converting a text to a state and back gives the text.
text-of_text : (s : String) → text (of_text s) ≡ s
text-of_text s = unfold of_text in text-from_table constants s

-- Each constant is read back from its text.
of_text-text : All (λ c. of_text (text c) ≡ c) constants
unfolding of_text text
of_text-text = (
  refl,
  (
    refl,
    (
      refl,
      (
        refl,
        (
          refl,
          (
            refl,
            (
              refl,
              (
                refl,
                (
                  refl,
                  (
                    refl,
                    (
                      refl,
                      (
                        refl,
                        (
                          refl,
                          (
                            refl,
                            (refl, (refl, (refl, (refl, (refl, (refl, (refl, (refl, tt)))))))),
                          ),
                        ),
                      ),
                    ),
                  ),
                ),
              ),
            ),
          ),
        ),
      ),
    ),
  ),
)

at : List RequestState → ℕ → String → RequestState
at [] n s = other s
at (c ∷ cs) zero s = c
at (c ∷ cs) (suc n) s = at cs n s

rebuild : (a : RequestState) → at constants (index a) (spelling a) ≡ a
unfolding at
rebuild pending = refl
rebuild _ = refl

parts_of_test : (m n : ℕ) (s t : String) → (m == n && str_eq s t) ≡ true → (m ≡ n) × (s ≡ t)
parts_of_test m n s t h = ground (arith, str_eq_iff s t)

test_refl : (m : ℕ) (s : String) → (m == m && str_eq s s) ≡ true
test_refl m s = rw (str_eq_refl s) (ground arith)

is-eq : (a b : RequestState) → (a is b) ≡ true → a ≡ b
is-eq a b h =
    let (i, s) = parts_of_test (index a) (index b) (spelling a) (spelling b) h in
    sym (rebuild a) ∙ ap₂ (at constants) i s ∙ rebuild b

-- The test `==` on states decides equality.
is_iff : (a b : RequestState) → ((a is b) ≡ true) ↔ (a ≡ b)
is_iff a b = (is-eq a b, λ e. rw e (test_refl (index b) (spelling b)))

-- A state is known exactly when it is not a text outside the constants.
is_known_iff : (a : RequestState) → (is_known a ≡ true) ↔ ((s : String) → a ≢ other s)
unfolding is_known
is_known_iff (other s) = (λ h. cc, λ f. absurd (f s refl))
is_known_iff _ = (λ h s e. cc, λ f. refl)
