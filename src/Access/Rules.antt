-- ===== src/Access/Rules.antt =====
-- hodu.go: which access rule decides on a request.
use hodu.Prelude.{
  ℕ, ◌≡◌, ◌⊎◌, inl, inr, subst, refl, sym, ap₂, Bool, true, false, ◌&&◌, ◌||◌, Option, none, some,
  List, [], ◌∷◌, ◌++◌, Bool-cases, arith, if◌then◌else◌,
}
use hodu.Prelude.Texts.{eq_text→eq, eq_text_self, Text, eq_text, has_prefix}
use hodu.Access.{
  HttpAccessRule, Request, Decision, moves_on, act, decide, matches, with_slash, org_net_ok,
  any_contains, is_nil, last_of, ends_in_slash, last_of, ends_in_slash,
}

has_prefix→append : (p s : Text) → has_prefix p s ≡ true → (r : Text) × (s ≡ p ++ r)
has_prefix→append [] s h = (s, refl)
has_prefix→append (c ∷ p) [] h = absurd (ground arith)
has_prefix→append (c ∷ p) (d ∷ s) h =
    let (r, e) = has_prefix→append p s (ground arith) in (r, ap₂ (◌∷◌) (ground arith) e)

has_prefix-append : (p r : Text) → has_prefix p (p ++ r) ≡ true
has_prefix-append [] r = refl
has_prefix-append (c ∷ p) r = ground (arith, has_prefix-append p r)

last_of-some : (c : ℕ) (s : Text) → (d : ℕ) × (last_of (c ∷ s) ≡ some d)
last_of-some c [] = (c, refl)
last_of-some c (d ∷ s) = last_of-some d s

with_slash-some : (p : Text) → is_nil p ≡ false → (dir : Text) × (with_slash p ≡ some dir)
with_slash-some [] h = absurd (ground arith)
with_slash-some (c ∷ s) h =
    let (d, e) = last_of-some c s in
    (if ends_in_slash d then c ∷ s else (c ∷ s) ++ (b'/' ∷ []), rw (with_slash, e) refl)

-- The path is the prefix, or lies below it: a slash parts the rest from the prefix.
abbrev pub IsUnder : Text → Text → Type 0
IsUnder prefix path =
    (path ≡ prefix)
    ⊎ ((dir : Text) × (with_slash prefix ≡ some dir) × ((rest : Text) × (path ≡ dir ++ rest)))

module _ {Net Addr : Type 0} (contains : Net → Addr → Bool) where
  -- No networks are given, the address is not known, or one of the networks contains it.
  abbrev pub IsFrom : List Net → Option Addr → Type 0
  IsFrom nets remote =
      (nets ≡ [])
      ⊎ ((remote ≡ none)
          ⊎ ((raddr : Addr) × (remote ≡ some raddr) × (any_contains contains nets raddr ≡ true)))

  abbrev pub Applies : HttpAccessRule Net → Request Addr → Type 0
  Applies rule req = IsUnder rule.prefix req.path × IsFrom rule.org_nets req.remote

  pub data First (req : Request Addr)
      : List (HttpAccessRule Net) → HttpAccessRule Net → Type 0 where
    here :
        {rule : HttpAccessRule Net} {rules : List (HttpAccessRule Net)}
        → Applies rule req
        → First req (rule ∷ rules) rule
    there :
        {rule found : HttpAccessRule Net} {rules : List (HttpAccessRule Net)}
        → ¬ Applies rule req
        → First req rules found
        → First req (rule ∷ rules) found

  abbrev pub NoneApplies : Request Addr → List (HttpAccessRule Net) → Type 0
  NoneApplies req [] = Unit
  NoneApplies req (rule ∷ rules) = (¬ Applies rule req) × NoneApplies req rules

  abbrev pub HasPrefixes : List (HttpAccessRule Net) → Type 0
  HasPrefixes [] = Unit
  HasPrefixes (rule ∷ rules) = (is_nil rule.prefix ≡ false) × HasPrefixes rules

  IsFrom-of :
      (nets : List Net) (remote : Option Addr)
      → org_net_ok contains nets remote ≡ true
      → IsFrom nets remote
  unfolding org_net_ok
  IsFrom-of nets none h = inr (inl refl)
  IsFrom-of [] (some raddr) h = inl refl
  IsFrom-of (net ∷ nets) (some raddr) h = inr (inr (raddr, refl, h))

  of-IsFrom :
      (nets : List Net) (remote : Option Addr)
      → IsFrom nets remote
      → org_net_ok contains nets remote ≡ true
  unfolding org_net_ok
  of-IsFrom nets none f = refl
  of-IsFrom [] (some raddr) f = refl
  of-IsFrom (net ∷ nets) (some raddr) (inl e) = absurd (ground arith)
  of-IsFrom (net ∷ nets) (some raddr) (inr (inl e)) = absurd (ground arith)
  of-IsFrom (net ∷ nets) (some raddr) (inr (inr (a, e, h))) =
      subst (λ o. org_net_ok contains (net ∷ nets) o ≡ true) (sym e) h

  IsUnder-of :
      (prefix dir path : Text)
      → with_slash prefix ≡ some dir
      → (eq_text path prefix || has_prefix dir path) ≡ true
      → IsUnder prefix path
  IsUnder-of prefix dir path e h = elim (Bool-cases (eq_text path prefix)) [
    | inl same ↦ inl (eq_text→eq path prefix same)
    | inr other ↦ inr (dir, e, has_prefix→append dir path (ground arith))
  ]

  of-IsUnder :
      (prefix dir path : Text)
      → with_slash prefix ≡ some dir
      → IsUnder prefix path
      → (eq_text path prefix || has_prefix dir path) ≡ true
  of-IsUnder prefix dir path e (inl same) = ground (arith, eq_text_self prefix)
  of-IsUnder prefix dir path e (inr (d, ed, (rest, er))) = ground (arith, has_prefix-append d rest)

  abbrev pub Decided : List (HttpAccessRule Net) → Request Addr → Decision → Type 0
  Decided rules req d =
      ((rule : HttpAccessRule Net) × First req rules rule
        × (d ≡ act rule.action req.peer_certificates))
      ⊎ (NoneApplies req rules × (d ≡ moves_on))

  passed_on :
      (rule : HttpAccessRule Net) (rules : List (HttpAccessRule Net)) (req : Request Addr)
      (d : Decision)
      → ¬ Applies rule req
      → Decided rules req d
      → Decided (rule ∷ rules) req d
  passed_on rule rules req d miss (inl (found, first, e)) = inl (found, there miss first, e)
  passed_on rule rules req d miss (inr (none_applies, e)) = inr ((miss, none_applies), e)

  -- Where no rule has a blank prefix, the first rule that applies decides; if none applies, the check
  -- goes on. A rule applies to a path that is its prefix or lies below it, from an address in its networks, or whatever address
  -- if it has no networks or the address is not known.
  pub decide-Decided :
      (rules : List (HttpAccessRule Net)) (req : Request Addr)
      → HasPrefixes rules
      → Decided rules req (decide contains rules req)
  unfolding decide matches
  decide-Decided [] req h = inr (tt, refl)
  decide-Decided (rule ∷ rules) req (p, h) =
      let (dir, e) = with_slash-some rule.prefix p in
      let below = eq_text req.path rule.prefix || has_prefix dir req.path in
      elim (Bool-cases (below && org_net_ok contains rule.org_nets req.remote)) [
        | inl hit ↦ inl (
          rule,
          here (
            IsUnder-of rule.prefix dir req.path e (ground arith),
            IsFrom-of rule.org_nets req.remote (ground arith),
          ),
          rw (decide, matches, e, hit) refl,
        )
        | inr miss ↦
            passed_on rule rules req _
              (λ (under, from). absurd (
                ground (
                  arith,
                  of-IsUnder rule.prefix dir req.path e under,
                  of-IsFrom rule.org_nets req.remote from,
                )))
              (rw (decide, matches, e, miss) (decide-Decided rules req h))
      ]
