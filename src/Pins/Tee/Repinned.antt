-- ===== src/Pins/Tee/Repinned.antt =====
-- What a repin leaves in the store.
use pigcloud_cli.Common.{
  ◌-◌, ◌≤◌, String, List, [], ◌∷◌, ◌++◌, Bool, true, false, ◌≡◌, ◌≢◌, inl, inr, arith, ltb,
  same_iff, same_refl, length, any, any-append, any-keep-not, any-drop_le, any-drop_last,
  keep-append, length-append, length-drop, Bool-cases,
}
use pigcloud_cli.Pins.Tee.{Retired, Pin, retired_limit, same_pair, pinned, accepts, drop_retired}
use pigcloud_cli.Pins.Tee.Moves.{Offer, superseded, limit_retired, retire, moved_pin}

abbrev pub in_retired : String → String → List Retired → Bool
in_retired ed ml = any (λ q. same_pair q.ed q.ml ed ml)

length-limit_retired : (l : List Retired) → length (limit_retired l) ≤ retired_limit
unfolding limit_retired
length-limit_retired l = ground (arith, length-drop (length l - retired_limit) l)

limit_retired-keeps_last :
    (l : List Retired) (q : Retired) (ed ml : String)
    → same_pair q.ed q.ml ed ml ≡ true
    → in_retired ed ml (limit_retired (l ++ q ∷ [])) ≡ true
unfolding limit_retired
limit_retired-keeps_last l q ed ml e =
    elim (Bool-cases (ltb retired_limit (length (l ++ q ∷ [])))) [
      | inl long ↦ rw long (
          any-drop_last _ (length (l ++ q ∷ []) - retired_limit) l q
            (ground (arith, length-append l (q ∷ []))) e)
      | inr short ↦ rw (short, any-append _ l (q ∷ [])) (ground arith)
    ]

limit_retired-lacks :
    (l : List Retired) (ed ml : String)
    → in_retired ed ml l ≡ false
    → in_retired ed ml (limit_retired l) ≡ false
unfolding limit_retired
limit_retired-lacks l ed ml h =
    ground (arith, any-drop_le (λ q. same_pair q.ed q.ml ed ml) (length l - retired_limit) l)

drop_retired-lacks :
    (l : List Retired) (ed ml : String) → in_retired ed ml (drop_retired l ed ml) ≡ false
unfolding drop_retired
drop_retired-lacks l ed ml = any-keep-not (λ q. same_pair q.ed q.ml ed ml) l

drop_retired-concat :
    (l : List Retired) (q : Retired) (ed ml : String)
    → same_pair q.ed q.ml ed ml ≡ false
    → drop_retired (l ++ q ∷ []) ed ml ≡ drop_retired l ed ml ++ q ∷ []
unfolding drop_retired
drop_retired-concat l q ed ml e = rw (keep-append _ l (q ∷ [])) (rw e)

retire-lacks : (r : Pin) (ed ml at : String) → in_retired ed ml (retire r ed ml at) ≡ false
unfolding retire
retire-lacks r ed ml at = limit_retired-lacks _ ed ml (drop_retired-lacks _ ed ml)

length-retire : (r : Pin) (ed ml at : String) → length (retire r ed ml at) ≤ retired_limit
unfolding retire
length-retire r ed ml at = length-limit_retired _

retire-keeps :
    (r : Pin) (ed ml at : String)
    → pinned r ≡ true
    → same_pair r.ed r.ml ed ml ≡ false
    → in_retired r.ed r.ml (retire r ed ml at) ≡ true
unfolding retire pinned
retire-keeps r ed ml at p e =
    rw (p, drop_retired-concat (drop_retired r.retired r.ed r.ml) (superseded r at) ed ml e)
      (limit_retired-keeps_last (drop_retired (drop_retired r.retired r.ed r.ml) ed ml)
        (superseded r at) r.ed r.ml (ground (arith, same_refl r.ed, same_refl r.ml)))

-- A pin with two nonempty keys, whose pair is not among its at most eight retired ones, is moved
-- to an offered pair of nonempty keys. Then the offered pair is accepted and not among the
-- retired ones, the pair that was pinned is still accepted, and at most eight pairs are retired.
pub moved_pin-accepts :
    (r : Pin) (o : Offer) (at : String)
    → o.ed ≢ ""
    → o.ml ≢ ""
    → pinned r ≡ true
    → in_retired r.ed r.ml r.retired ≡ false
    → length r.retired ≤ retired_limit
    → let r' = moved_pin r o at in
      (accepts r' o.ed o.ml ≡ true)
      × (in_retired o.ed o.ml r'.retired ≡ false)
      × (accepts r' r.ed r.ml ≡ true)
      × (length r'.retired ≤ retired_limit)
unfolding moved_pin accepts pinned
moved_pin-accepts r o at he hm p fresh bound = ground (
  arith,
  same_refl o.ed,
  same_refl o.ml,
  same_refl r.ed,
  same_refl r.ml,
  same_iff o.ed "",
  same_iff o.ml "",
  same_iff r.ed o.ed,
  same_iff r.ml o.ml,
  retire-lacks r o.ed o.ml at,
  length-retire r o.ed o.ml at,
  retire-keeps r o.ed o.ml at p,
)
