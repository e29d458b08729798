-- ===== src/H248/Syntax/Rounds.antt =====
-- The loop of `parseAssignments` of internal/h248/message.go.
use megaco_sip_gateway.Prelude.{
  ℕ, zero, suc, ◌≤◌, ◌<◌, Bytes, Bool, true, false, List, [], ◌∷◌, Option, none, some, ◌==◌,
  if◌then◌else◌, length, drop, ◌≡◌, refl, ap, arith, sym, ◌∙◌,
}
use megaco_sip_gateway.H248.Syntax.{
  Assignment, Round, stop, skip, item, round, rounds, parse_assignments, skip_while,
  skip_unknown_item, after_braces, quotation, item_value, item_body, after_name, at_item, is_gap,
  is_item_char, is_space, is_value_char, balanced_end,
}

length-drop : (n : ℕ) (s : Bytes) → length (drop n s) ≤ length s
length-drop zero s = omega arith
length-drop (suc n) [] = omega arith
length-drop (suc n) (x ∷ xs) = let ih = length-drop n xs in omega arith

length-skip_while : (p : ℕ → Bool) (s : Bytes) → length (skip_while p s) ≤ length s
unfolding skip_while
length-skip_while p [] = omega arith
length-skip_while p (x ∷ xs) = ground (arith, length-skip_while p xs)

length-after_braces : (s : Bytes) (o : Option ℕ) → length (after_braces s o) ≤ length s
unfolding after_braces
length-after_braces s none = omega arith
length-after_braces s (some end) = length-drop (suc end) s

length-skip_unknown_item : (s : Bytes) → length (skip_unknown_item s) ≤ length s
unfolding skip_unknown_item
length-skip_unknown_item [] = omega arith
length-skip_unknown_item (x ∷ xs) =
    ground
      (arith, length-skip_unknown_item xs, length-after_braces (x ∷ xs) (balanced_end (x ∷ xs)))

length-quotation : (before : ℕ) (s : Bytes) → length (quotation before s).1 ≤ length s
unfolding quotation
length-quotation before [] = omega arith
length-quotation before (x ∷ xs) = ground (arith, length-quotation x xs)

length-item_value : (s : Bytes) → length (item_value s).1 ≤ length s
unfolding item_value
length-item_value [] = omega arith
length-item_value (x ∷ xs) =
    ground (arith, length-quotation x xs, length-skip_while is_value_char (x ∷ xs))

length-item_body : (s : Bytes) → length (item_body s).1 ≤ length s
unfolding item_body
length-item_body [] = omega arith
length-item_body (x ∷ xs) = ground (arith, length-after_braces (x ∷ xs) (balanced_end (x ∷ xs)))

-- A round that does not stop the loop leaves fewer than `n` bytes.
pub LeavesBelow : ℕ → Round → Type 0
LeavesBelow n stop = Unit {0}
LeavesBelow n (skip rest) = length rest < n
LeavesBelow n (item a rest) = length rest < n

if_LeavesBelow :
    (n : ℕ) (test : Bool) (r r' : Round)
    → (test ≡ true → LeavesBelow n r)
    → (test ≡ false → LeavesBelow n r')
    → LeavesBelow n (if test then r else r')
if_LeavesBelow n true r r' h h' = h refl
if_LeavesBelow n false r r' h h' = h' refl

after_name-LeavesBelow : (name s : Bytes) (n : ℕ) → length s < n → LeavesBelow n (after_name name s)
unfolding after_name LeavesBelow
after_name-LeavesBelow name [] n lt = let le = length-skip_unknown_item [] in omega arith
after_name-LeavesBelow name (x ∷ xs) n lt =
    if_LeavesBelow n (x == b'=') _ _
      (λ e.
        let a = length-skip_while is_space xs in
        let b = length-item_value (skip_while is_space xs) in
        let c = length-skip_while is_space (item_value (skip_while is_space xs)).1 in
        let d = length-item_body (skip_while is_space (item_value (skip_while is_space xs)).1) in
        omega arith)
      (λ e. let le = length-skip_unknown_item (x ∷ xs) in omega arith)

shorter :
    (p : ℕ → Bool) (x : ℕ) (xs : Bytes) → p x ≡ true → length (skip_while p (x ∷ xs)) ≤ length xs
unfolding skip_while
shorter p x xs e = rw e (length-skip_while p xs)

at_item-LeavesBelow : (s : Bytes) (n : ℕ) → length s ≤ n → LeavesBelow n (at_item s)
unfolding at_item LeavesBelow
at_item-LeavesBelow [] n le = tt
at_item-LeavesBelow (x ∷ xs) n le =
    if_LeavesBelow n (x == b'}') _ _ (λ e. tt)
      (λ e.
        if_LeavesBelow n (is_item_char x) _ _
          (λ is. after_name-LeavesBelow _ _ n (
            let a = shorter is_item_char x xs is in
            let b = length-skip_while is_space (skip_while is_item_char (x ∷ xs)) in omega arith))
          (λ other. omega arith))

pub round-LeavesBelow : (s : Bytes) → LeavesBelow (length s) (round s)
unfolding round
round-LeavesBelow s =
    at_item-LeavesBelow (skip_while is_gap s) (length s) (length-skip_while is_gap s)

-- What the loop does with the outcome of a round
pub continue : (Bytes → List Assignment) → Round → List Assignment
continue parse stop = []
continue parse (skip rest) = parse rest
continue parse (item a rest) = a ∷ parse rest

as_continue :
    (f : Bytes → List Assignment) (r : Round)
    → (elim r [ stop ↦ [] | skip rest ↦ f rest | item a rest ↦ a ∷ f rest ]) ≡ continue f r
unfolding continue
as_continue f stop = refl
as_continue f (skip rest) = refl
as_continue f (item a rest) = refl

continue-agree :
    (f g : Bytes → List Assignment) (n : ℕ)
    → ((s : Bytes) → length s < n → f s ≡ g s)
    → (r : Round) → LeavesBelow n r
    → continue f r ≡ continue g r
unfolding continue LeavesBelow
continue-agree f g n same_below stop h = refl
continue-agree f g n same_below (skip rest) h = same_below rest h
continue-agree f g n same_below (item a rest) h = ap (λ l. a ∷ l) (same_below rest h)

rounds-continue : (m : ℕ) (s : Bytes) → rounds (suc m) s ≡ continue (rounds m) (round s)
unfolding rounds
rounds-continue m s = as_continue (rounds m) (round s)

-- Two fuels that are greater than the length give the same.
rounds-enough : (m n : ℕ) (s : Bytes) → length s < m → length s < n → rounds m s ≡ rounds n s
rounds-enough zero n s lt lt' = absurd (omega arith)
rounds-enough (suc m) zero s lt lt' = absurd (omega arith)
rounds-enough (suc m) (suc n) s lt lt' =
    rounds-continue m s
    ∙ (continue-agree (rounds m) (rounds n) (length s)
          (λ rest le. rounds-enough m n rest (omega arith) (omega arith)) (round s)
          (round-LeavesBelow s)
        ∙ sym (rounds-continue n s))

-- The loop that parses assignments ends on every text: a round stops it or leaves a shorter
-- text, the result is that of one round and of the loop on what it leaves, and any fuel above
-- the length of the text gives this result.
pub parse_assignments-rounds :
    (s : Bytes)
    → LeavesBelow (length s) (round s)
      × (parse_assignments s ≡ continue parse_assignments (round s))
      × ((fuel : ℕ) → length s < fuel → rounds fuel s ≡ parse_assignments s)
unfolding parse_assignments
parse_assignments-rounds s = (
  round-LeavesBelow s,
  rounds-continue (length s) s
      ∙ continue-agree (rounds (length s)) parse_assignments (length s)
          (λ rest lt. rounds-enough (length s) (suc (length rest)) rest lt (omega arith)) (round s)
          (round-LeavesBelow s),
  λ fuel lt. rounds-enough fuel (suc (length s)) s lt (omega arith),
)
