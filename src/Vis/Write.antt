-- ===== src/Vis/Write.antt =====
-- batman-adv.c, `generate_vis_packet`: what the writes of one entry leave.
use batman_adv_userspace.Base.{
  ℕ, zero, suc, ◌+◌, ◌-◌, ◌%◌, ◌^◌, ◌≤◌, ◌<◌, ◌≡◌, refl, sym, ap, ◌∙◌, List, [], ◌∷◌, ◌++◌, true,
  false, some, arith, ltb, leb, length, take, drop, length-append,
}
use mathlib.Core.List.{append_assoc, append-nil}
use batman_adv_userspace.Vis.Defs.{VisData, VisPacket, write_at, put_data, fresh, grow}

pub take_front : (n : ℕ) (xs ys : List ℕ) → n ≡ length xs → take n (xs ++ ys) ≡ xs
take_front zero [] ys e = refl
take_front (suc n) [] ys e = absurd omega (arith, e)
take_front zero (x ∷ xs) ys e = absurd omega (arith, e)
take_front (suc n) (x ∷ xs) ys e = ap (λ t. x ∷ t) (take_front n xs ys (omega (arith, e)))

drop_front : (n : ℕ) (xs ys : List ℕ) → n ≡ length xs → drop n (xs ++ ys) ≡ ys
drop_front zero [] ys e = refl
drop_front (suc n) [] ys e = absurd omega (arith, e)
drop_front zero (x ∷ xs) ys e = absurd omega (arith, e)
drop_front (suc n) (x ∷ xs) ys e = drop_front n xs ys (omega (arith, e))

-- A write replaces what stands at its place.
pub write_at_lem :
    (n : ℕ) (front old new behind bytes : List ℕ)
    → n ≡ length front
    → length old ≡ length new
    → bytes ≡ front ++ (old ++ behind)
    → write_at n new bytes ≡ some (front ++ (new ++ behind))
unfolding write_at
write_at_lem n front old new behind bytes place same is =
    let long : length bytes ≡ length front + (length old + length behind) =
      ap length is
      ∙ length-append front (old ++ behind)
      ∙ ap (λ (t : ℕ). length front + t) (length-append old behind) in
    let fits : leb (n + length new) (length bytes) ≡ true = ground (arith, long, place, same) in
    let before : take n bytes ≡ front =
      ap (λ b. take n b) is ∙ take_front n front (old ++ behind) place in
    let after : drop (n + length new) bytes ≡ behind =
      ap (λ b. drop (n + length new) b) (is ∙ sym (append_assoc front old behind))
      ∙ drop_front (n + length new) (front ++ old) behind
          (omega (arith, length-append front old, place, same)) in
    rw (write_at, fits, before, after) refl

-- The bytes of an entry, as vis-types.h lays them out.
abbrev pub data_of : VisData → List ℕ
data_of d = d.type ∷ d.value ∷ d.mac

-- Eight bytes that stand somewhere, as the fields of an entry.
pub put_data_lem :
    (back : ℕ) (d : VisData) (p : VisPacket) (front old behind : List ℕ) (t v : ℕ)
    → p.bytes ≡ front ++ (t ∷ v ∷ (old ++ behind))
    → p.size ≡ length front + back
    → length old ≡ 6
    → length d.mac ≡ 6
    → put_data back d p ≡ some (record p { bytes = front ++ (data_of d ++ behind) })
unfolding put_data
put_data_lem back d p front old behind t v is size old_six six =
    let fits : ltb p.size back ≡ false = ground (arith, size) in
    let place : p.size - back ≡ length front = omega (arith, size) in
    let mac_at =
      write_at_lem (p.size - back + 2) (front ++ t ∷ v ∷ []) old d.mac behind p.bytes
        (omega (arith, place, length-append front (t ∷ v ∷ []))) (omega (arith, old_six, six))
        (is ∙ sym (append_assoc front (t ∷ v ∷ []) (old ++ behind))) in
    let data_at =
      write_at_lem (p.size - back + 1) (front ++ t ∷ []) (v ∷ []) (d.value ∷ []) (d.mac ++ behind)
        ((front ++ t ∷ v ∷ []) ++ (d.mac ++ behind))
        (omega (arith, place, length-append front (t ∷ []))) refl
        (append_assoc front (t ∷ v ∷ []) (d.mac ++ behind)
          ∙ sym (append_assoc front (t ∷ []) (v ∷ (d.mac ++ behind)))) in
    let type_at =
      write_at_lem (p.size - back) front (t ∷ []) (d.type ∷ []) (d.value ∷ (d.mac ++ behind))
        ((front ++ t ∷ []) ++ (d.value ∷ (d.mac ++ behind))) place refl
        (append_assoc front (t ∷ []) (d.value ∷ (d.mac ++ behind))) in
    rw (put_data, fits, mac_at, data_at, type_at) refl

module _ (unset : ℕ → ℕ) where
  pub length-fresh : (offset n : ℕ) → length (fresh unset offset n) ≡ n
  unfolding fresh
  length-fresh offset zero = refl
  length-fresh offset (suc n) = ap (λ (t : ℕ). suc t) (length-fresh (suc offset) n)

  take_all : (n : ℕ) (xs : List ℕ) → length xs ≤ n → take n xs ≡ xs
  take_all zero [] h = refl
  take_all zero (x ∷ xs) h = absurd omega (arith, h)
  take_all (suc n) [] h = refl
  take_all (suc n) (x ∷ xs) h = ap (λ t. x ∷ t) (take_all n xs (omega (arith, h)))

  -- A packet whose size does not wrap keeps its bytes.
  pub grow_lem :
      (n : ℕ) (p : VisPacket)
      → p.size ≡ length p.bytes
      → p.size + n < 2 ^ 16
      → grow unset n p
        ≡ record { bytes = p.bytes ++ fresh unset (length p.bytes) n; size = p.size + n }
  unfolding grow
  grow_lem n p sized few =
      let small : (p.size + n) % 2 ^ 16 ≡ p.size + n = omega (arith, few) in
      let whole : take (p.size + n) p.bytes ≡ p.bytes =
        take_all (p.size + n) p.bytes (omega (arith, sized)) in
      let more : p.size + n - length p.bytes ≡ n = omega (arith, sized) in
      rw (small, whole, more) refl

  -- An entry more at the end.
  pub append_data :
      (d : VisData) (p : VisPacket)
      → p.size ≡ length p.bytes
      → p.size + 8 < 2 ^ 16
      → length d.mac ≡ 6
      → put_data 8 d (grow unset 8 p)
        ≡ some (record { bytes = p.bytes ++ data_of d; size = p.size + 8 })
  unfolding fresh
  append_data d p sized few six =
      let o = length p.bytes in
      ap (λ q. put_data 8 d q) (grow_lem 8 p sized few)
      ∙ put_data_lem 8 d record { bytes = p.bytes ++ fresh unset o 8; size = p.size + 8 } p.bytes
          (fresh unset (suc (suc o)) 6) [] (unset o) (unset (suc o))
          (ap (λ r. p.bytes ++ (unset o ∷ unset (suc o) ∷ r))
            (sym (append-nil (fresh unset (suc (suc o)) 6))))
          (omega (arith, sized)) refl six
      ∙ ap (λ r. some (record { bytes = p.bytes ++ r; size = p.size + 8 })) (append-nil (data_of d))
