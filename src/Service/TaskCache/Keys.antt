-- ===== src/Service/TaskCache/Keys.antt =====
-- The keys of cached task lists: what they tell apart, and what they do not.
use secunda_homework.Base.{
  ℕ, suc, ℤ, pos, negsuc, true, false, Option, some, [], ◌∷◌, ◌++◌, ◌≡◌, ◌≢◌, ◌⊎◌, inl, inr, refl,
  sym, ap, ◌∙◌, arith, if◌then◌else◌, ◌==◌, ==_iff, any,
}
use secunda_homework.Text.{Bytes, codes, beq, parse_digits, is_empty, format_uint, format_int}
use secunda_homework.Text.Decimal.{
  parse_digits-digits, format_uint_injective, format_uint_injective_end,
}
use secunda_homework.Entity.TaskStatus.{TaskStatus, is_valid, todo, in_progress, done}
use secunda_homework.Entity.TaskStatus.Laws.{is_valid_iff}
use secunda_homework.Dto.Filter.{TaskFilter}
use secunda_homework.Service.TaskCache.{cache_key, task_list_cache_key}

-- Two filters that differ only in the limit and in the assignee have the same cache key.
pub task_list_cache_key-ignores :
    (f : TaskFilter) (limit : ℤ) (assignee_id : Option ℕ)
    → task_list_cache_key (record f { limit = limit; assignee_id = assignee_id })
      ≡ task_list_cache_key f
unfolding task_list_cache_key
task_list_cache_key-ignores f limit assignee_id = refl

abbrev tail : Bytes → Bytes
tail [] = []
tail (x ∷ xs) = xs

-- A string without a given byte, before that byte, is determined.
before_byte :
    (c : ℕ) (s t a b : Bytes)
    → any (λ x. x == c) s ≡ false
    → any (λ x. x == c) t ≡ false
    → s ++ c ∷ a ≡ t ++ c ∷ b
    → (s ≡ t) × (a ≡ b)
unfolding any
before_byte c [] [] a b hs ht e = (refl, cc)
before_byte c [] (y ∷ ys) a b hs ht e =
    let at_head : c ≡ y = cc in absurd (ground (arith, ==_iff y c))
before_byte c (x ∷ xs) [] a b hs ht e =
    let at_head : x ≡ c = cc in absurd (ground (arith, ==_iff x c))
before_byte c (x ∷ xs) (y ∷ ys) a b hs ht e =
    let at_head : x ≡ y = cc in
    let below : xs ++ c ∷ a ≡ ys ++ c ∷ b = cc in
    let (p, q) = before_byte c xs ys a b (ground arith) (ground arith) below in (cc, q)

drop_front : (p s t : Bytes) → p ++ s ≡ p ++ t → s ≡ t
drop_front [] s t e = e
drop_front (x ∷ xs) s t e = drop_front xs s t (ap tail e)

-- A number's first byte is a digit, and so no sign.
format_uint-minus : (n : ℕ) (s : Bytes) → format_uint n ≢ b'-' ∷ s
unfolding format_uint parse_digits
format_uint-minus n s e =
    let p : parse_digits 0 (b'-' ∷ s) ≡ some n =
      ap (parse_digits 0) (sym e) ∙ parse_digits-digits (suc n) n (omega arith) in
    cc

format_int_injective : (m n : ℤ) → format_int m ≡ format_int n → m ≡ n
unfolding format_int
format_int_injective (pos m) (pos n) e = ap pos (format_uint_injective_end m n e)
format_int_injective (pos m) (negsuc n) e = absurd (format_uint-minus m (format_uint (suc n)) e)
format_int_injective (negsuc m) (pos n) e =
    absurd (format_uint-minus n (format_uint (suc m)) (sym e))
format_int_injective (negsuc m) (negsuc n) e =
    let p = format_uint_injective_end (suc m) (suc n) (ap tail e) in cc

abbrev shown_status : TaskStatus → Bytes
shown_status s = if is_empty s then codes "any" else s

abbrev read_status : Bytes → TaskStatus
read_status s = if beq s (codes "any") then codes "" else s

-- A filter's status, as the query parameters give it: none, or a valid one.
abbrev pub IsFilterStatus : TaskStatus → Type 0
IsFilterStatus s = (s ≡ codes "") ⊎ (is_valid s ≡ true)

pub status_cases :
    (s : TaskStatus)
    → IsFilterStatus s
    → (s ≡ codes "") ⊎ (s ≡ todo) ⊎ (s ≡ in_progress) ⊎ (s ≡ done)
status_cases s (inl e) = inl e
status_cases s (inr e) = inr ((is_valid_iff s).0 e)

read-shown : (s : TaskStatus) → IsFilterStatus s → read_status (shown_status s) ≡ s
unfolding beq
read-shown s h = elim (status_cases s h) [
  | inl e ↦ rw e
  | inr (inl e) ↦ rw e
  | inr (inr (inl e)) ↦ rw e
  | inr (inr (inr e)) ↦ rw e
]

shown-colon : (s : TaskStatus) → IsFilterStatus s → any (λ x. x == b':') (shown_status s) ≡ false
unfolding any
shown-colon s h = elim (status_cases s h) [
  | inl e ↦ rw e
  | inr (inl e) ↦ rw e
  | inr (inr (inl e)) ↦ rw e
  | inr (inr (inr e)) ↦ rw e
]

cache_key_injective :
    (team_id team_id' : ℕ) (s s' : Bytes) (page page' : ℤ)
    → any (λ x. x == b':') s ≡ false
    → any (λ x. x == b':') s' ≡ false
    → cache_key team_id s page ≡ cache_key team_id' s' page'
    → (team_id ≡ team_id') × (s ≡ s') × (page ≡ page')
unfolding cache_key
cache_key_injective team_id team_id' s s' page page' h h' e =
    let e1 = drop_front (codes "task:list:team:") _ _ e in
    let (p, e2) =
      format_uint_injective team_id team_id' b':'
        (codes "status:" ++ (s ++ (codes ":page:" ++ format_int page)))
        (codes "status:" ++ (s' ++ (codes ":page:" ++ format_int page'))) refl e1 in
    let e3 = drop_front (codes "status:") _ _ e2 in
    let (q, e4) =
      before_byte b':' s s' (codes "page:" ++ format_int page) (codes "page:" ++ format_int page') h
        h' e3 in
    let e5 = drop_front (codes "page:") _ _ e4 in (p, q, format_int_injective page page' e5)

-- For filters with no status or a valid one, one cache key means one team, one status and one page.
pub task_list_cache_key_injective :
    (f g : TaskFilter)
    → IsFilterStatus f.status
    → IsFilterStatus g.status
    → task_list_cache_key f ≡ task_list_cache_key g
    → (f.team_id ≡ g.team_id) × (f.status ≡ g.status) × (f.page ≡ g.page)
unfolding task_list_cache_key
task_list_cache_key_injective f g hf hg e =
    let (p, q, r) =
      cache_key_injective f.team_id g.team_id (shown_status f.status) (shown_status g.status) f.page
        g.page (shown-colon f.status hf) (shown-colon g.status hg) e in
    (p, sym (read-shown f.status hf) ∙ ap read_status q ∙ read-shown g.status hg, r)
