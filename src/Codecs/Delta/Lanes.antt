-- ===== src/Codecs/Delta/Lanes.antt =====
-- Merging undoes splitting.
use nexcomp.Base.{
  ℕ, zero, suc, ◌+◌, ◌%◌, ◌<◌, ◌≡◌, refl, ap, ◌∙◌, arith, List, [], ◌∷◌, ◌++◌, some, length,
  length-append, length-replicate, get_or, get_elem?, replicate, map, returns,
}
use native.Mathlib.Nat.{mod-lt}
use nexcomp.Base.Words.{Bytes}
use nexcomp.Codecs.Delta.{push, split_from, split_lanes, increment, merge_from, merge_lanes}

length-push : (lane b : ℕ) (out : List Bytes) → length (push lane b out) ≡ length out
unfolding push
length-push lane b [] = refl
length-push zero b (l ∷ out) = refl
length-push (suc lane) b (l ∷ out) = ap suc (length-push lane b out)

pub length-split_from :
    (n idx : ℕ) (bytes : Bytes) (out : List Bytes)
    → length (split_from n idx bytes out) ≡ length out
unfolding split_from
length-split_from n idx [] out = refl
length-split_from n idx (b ∷ bytes) out =
    length-split_from n (idx + 1) bytes (push (idx % n) b out) ∙ length-push (idx % n) b out

get_elem?_front :
    (xs ys : Bytes) (p : ℕ) (x : ℕ) → get_elem? xs p ≡ some x → get_elem? (xs ++ ys) p ≡ some x
get_elem?_front [] ys p x e = cc
get_elem?_front (y ∷ xs) ys zero x e = e
get_elem?_front (y ∷ xs) ys (suc p) x e = get_elem?_front xs ys p x e

get_elem?-end : (xs : Bytes) (x : ℕ) → get_elem? (xs ++ (x ∷ [])) (length xs) ≡ some x
get_elem?-end [] x = refl
get_elem?-end (y ∷ xs) x = get_elem?-end xs x

-- What a lane holds, it still holds after a push, and after the rest of the loop.
push_keeps :
    (lane b : ℕ) (out : List Bytes) (l p x : ℕ)
    → get_elem? (get_or out l []) p ≡ some x
    → get_elem? (get_or (push lane b out) l []) p ≡ some x
unfolding push
push_keeps lane b [] l p x e = cc
push_keeps zero b (o ∷ out) zero p x e = get_elem?_front o (b ∷ []) p x e
push_keeps zero b (o ∷ out) (suc l) p x e = e
push_keeps (suc lane) b (o ∷ out) zero p x e = e
push_keeps (suc lane) b (o ∷ out) (suc l) p x e = push_keeps lane b out l p x e

split_keeps :
    (n idx : ℕ) (bytes : Bytes) (out : List Bytes) (l p x : ℕ)
    → get_elem? (get_or out l []) p ≡ some x
    → get_elem? (get_or (split_from n idx bytes out) l []) p ≡ some x
unfolding split_from
split_keeps n idx [] out l p x e = e
split_keeps n idx (b ∷ bytes) out l p x e =
    split_keeps n (idx + 1) bytes (push (idx % n) b out) l p x (push_keeps (idx % n) b out l p x e)

-- A push puts its byte at the end of the lane.
push_holds :
    (lane b : ℕ) (out : List Bytes)
    → lane < length out
    → get_elem? (get_or (push lane b out) lane []) (get_or (map length out) lane 0) ≡ some b
unfolding push
push_holds lane b [] h = absurd (omega arith)
push_holds zero b (o ∷ out) h = get_elem?-end o b
push_holds (suc lane) b (o ∷ out) h = push_holds lane b out (omega arith)

lengths-push :
    (lane b : ℕ) (out : List Bytes) → map length (push lane b out) ≡ increment lane (map length out)
unfolding push increment
lengths-push lane b [] = refl
lengths-push zero b (o ∷ out) =
    let e : length (o ++ (b ∷ [])) ≡ suc (length o) = omega (arith, length-append o (b ∷ [])) in
    ap (λ (t : ℕ). t ∷ map length out) e
lengths-push (suc lane) b (o ∷ out) = ap (λ t. length o ∷ t) (lengths-push lane b out)

-- The positions of the merging loop are the lengths that the lanes had at that index.
merge_from-split_from :
    (idx : ℕ) (bytes : Bytes) (out : List Bytes)
    → 0 < length out
    → merge_from (split_from (length out) idx bytes out) (length bytes) idx (map length out)
      ≡ returns bytes
unfolding merge_from split_from
merge_from-split_from idx [] out h = refl
merge_from-split_from idx (b ∷ bytes) out h =
    let n = length out in
    let lane = idx % n in
    let next = push lane b out in
    let same : length next ≡ n = length-push lane b out in
    let final = split_from n (idx + 1) bytes next in
    let size : length final ≡ n = length-split_from n (idx + 1) bytes next ∙ same in
    let here : get_elem? (get_or final lane []) (get_or (map length out) lane 0) ≡ some b =
      split_keeps n (idx + 1) bytes next lane _ b (push_holds lane b out (mod-lt idx h)) in
    let on : merge_from (split_from (length next) (idx + 1) bytes next) (length bytes) (idx + 1)
          (map length next)
        ≡ returns bytes =
      merge_from-split_from (idx + 1) bytes next (omega arith) in
    let on' : merge_from final (length bytes) (idx + 1) (increment lane (map length out))
        ≡ returns bytes =
      rw (same, lengths-push lane b out) at on in
    rw (size, here, on') refl

lengths-replicate : (n : ℕ) → map (length {A = ℕ}) (replicate n []) ≡ replicate n 0
lengths-replicate zero = refl
lengths-replicate (suc n) = ap (λ t. 0 ∷ t) (lengths-replicate n)

-- Splitting bytes over any positive number of lanes and merging them gives the bytes back, without
-- reading past the end of a lane.
pub merge_lanes-split_lanes :
    (bytes : Bytes) (lanes : ℕ)
    → 0 < lanes
    → merge_lanes (split_lanes bytes lanes) (length bytes) ≡ returns bytes
unfolding merge_lanes split_lanes
merge_lanes-split_lanes bytes lanes h =
    let empty : List Bytes = replicate lanes [] in
    let count : length empty ≡ lanes = length-replicate lanes [] in
    let start : merge_from (split_from (length empty) 0 bytes empty) (length bytes) 0
          (map length empty)
        ≡ returns bytes =
      merge_from-split_from 0 bytes empty (omega arith) in
    rw (length-split_from lanes 0 bytes empty, count) (rw (count, lengths-replicate lanes) at start)
