-- ===== src/Approvals/Quorum.antt =====
-- The count of votes against the users that may vote.
use formicary.Common.{
  String, suc, ◌≡◌, ◌+◌, ◌<◌, ◌≤◌, refl, true, false, ◌&&◌, arith, some, str_eq, str_eq_iff, List,
  [], ◌∷◌, ◌++◌, if◌then◌else◌, length, length-append, any,
}
use formicary.Approvals.{
  Policy, Vote, Decision, approvals, rejections, is_rejected, is_approval, is_refusal,
  allowed_user_list, has_voted,
}

-- No voter votes twice, and each is one of the users.
abbrev pub IsRoll : List String → List Vote → Type 0
IsRoll users [] = Unit
IsRoll users (v ∷ votes) =
    (has_voted v.voter_id votes ≡ false)
    × (any (λ u. str_eq u v.voter_id) users ≡ true)
    × IsRoll users votes

-- The users without the first that has the id.
without : String → List String → List String
without id [] = []
without id (u ∷ users) = let rest = without id users in if str_eq u id then users else u ∷ rest

length-without :
    (id : String) (users : List String)
    → any (λ u. str_eq u id) users ≡ true
    → length users ≡ suc (length (without id users))
unfolding without
length-without id [] h = absurd (cc h)
length-without id (u ∷ users) h = ground (arith, length-without id users)

any-without :
    (id other : String) (users : List String)
    → str_eq id other ≡ false
    → any (λ u. str_eq u other) users ≡ true
    → any (λ u. str_eq u other) (without id users) ≡ true
unfolding without
any-without id other [] differs h = absurd (cc h)
any-without id other (u ∷ users) differs h =
    ground
      (arith, str_eq_iff u id, str_eq_iff u other, str_eq_iff id other, any-without id other users)

IsRoll-without :
    (id : String) (users : List String) (votes : List Vote)
    → has_voted id votes ≡ false
    → IsRoll users votes
    → IsRoll (without id users) votes
unfolding has_voted
IsRoll-without id users [] new roll = tt
IsRoll-without id users (v ∷ votes) new (once, may, rest) =
    let new_first : str_eq v.voter_id id ≡ false = ground (arith) in
    let new_rest : has_voted id votes ≡ false = ground (arith) in
    let other : str_eq id v.voter_id ≡ false =
      ground (arith, str_eq_iff id v.voter_id, str_eq_iff v.voter_id id) in
    (once, any-without id v.voter_id users other may, IsRoll-without id users votes new_rest rest)

-- As many votes as users at most.
IsRoll-le :
    (users : List String) (votes : List Vote) → IsRoll users votes → length votes ≤ length users
IsRoll-le users [] roll = omega arith
IsRoll-le users (v ∷ votes) (once, may, rest) =
    let shorter = length-without v.voter_id users may in
    let fewer =
      IsRoll-le (without v.voter_id users) votes
        (IsRoll-without v.voter_id users votes once rest) in
    omega arith

one-verdict : (d : Decision) → (is_approval d && is_refusal d) ≡ false
one-verdict Decision.approved = refl
one-verdict Decision.rejected = refl
one-verdict (Decision.undecided _) = refl

count-le : (votes : List Vote) → approvals votes + rejections votes ≤ length votes
count-le [] = omega arith
count-le (v ∷ votes) = ground (arith, count-le votes, one-verdict v.decision)

rejections-append : (votes more : List Vote) → rejections votes ≤ rejections (votes ++ more)
rejections-append [] more = omega arith
rejections-append (v ∷ votes) more = ground (arith, rejections-append votes more)

-- A rejection is final: where the users are listed and the policy asks for no unanimity, votes that
-- reject a task leave no way to a quorum, whichever of the remaining users vote.
pub is_rejected-final :
    (p : Policy) (votes more : List Vote)
    → p.require_unanimous ≡ false
    → 0 < length (allowed_user_list p)
    → IsRoll (allowed_user_list p) (votes ++ more)
    → is_rejected (approvals votes) (rejections votes) (some p) ≡ true
    → approvals (votes ++ more) < p.min_approvals
unfolding is_rejected
is_rejected-final p votes more any_of listed roll rejected =
    let most = IsRoll-le (allowed_user_list p) (votes ++ more) roll in
    let counted = count-le (votes ++ more) in
    let kept = rejections-append votes more in
    ground (arith, kept, most, counted, length-append votes more)
