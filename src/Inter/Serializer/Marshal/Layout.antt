-- ===== src/Inter/Serializer/Marshal/Layout.antt =====
-- The layout of an encoded event, in plain terms.
use go_mini_opera.Prelude.{
  ap, some, replicate, append_assoc, ◌<◌, ◌^◌, take, get_or, All, length-drop, ℕ, suc, ◌-◌, ◌*◌,
  ◌≤◌, ◌≡◌, refl, arith, List, [], ◌∷◌, ◌++◌, Bool, if◌then◌else◌, length, drop, length-append,
}
use go_mini_opera.Inter.Event.{Event}
use go_mini_opera.Fast.BitArray.RoundTrip.{IsDigit, Holds, at_offset, push_each}
use go_mini_opera.Inter.Serializer.Marshal.{fields64, fields32, fields_bool}
use go_mini_opera.Inter.Serializer.Compact.Laws.{compact, length-compact}

-- The numbers of one width, one after the other.
unfoldable pub compacts : ℕ → List ℕ → List ℕ
compacts size [] = []
compacts size (v ∷ vs) = compact size v ++ compacts size vs

-- What the header holds of each number: its bytes less one.
unfoldable pub sizes : ℕ → List ℕ → List ℕ
sizes size [] = []
sizes size (v ∷ vs) = (length (compact size v) - 1) ∷ sizes size vs

unfoldable pub flags : List Bool → List ℕ
flags [] = []
flags (f ∷ fs) = (if f then 1 else 0) ∷ flags fs

-- The parents' ids without the epoch.
unfoldable pub tails : List (List ℕ) → List ℕ
tails [] = []
tails (p ∷ ps) = drop 4 p ++ tails ps

pub length-compacts : (size : ℕ) (vs : List ℕ) → length (compacts size vs) ≤ length vs * size
unfolding compacts
length-compacts size [] = omega arith
length-compacts size (v ∷ vs) = omega (
  arith,
  length-append (compact size v) (compacts size vs),
  length-compact size v,
  length-compacts size vs,
)

pub sizes_small :
    (size bits : ℕ) (vs : List ℕ) → 0 < size → size ≤ 2 ^ bits → All (IsDigit bits) (sizes size vs)
unfolding sizes
sizes_small size bits [] pos le = tt
sizes_small size bits (v ∷ vs) pos le =
    (omega (arith, length-compact size v), sizes_small size bits vs pos le)

pub length-sizes : (size : ℕ) (vs : List ℕ) → length (sizes size vs) ≡ length vs
unfolding sizes
length-sizes size [] = refl
length-sizes size (v ∷ vs) = ap suc (length-sizes size vs)

pub length-tails :
    (ps : List (List ℕ)) (E : List ℕ)
    → All (λ h. (length h ≡ 32) × (take 4 h ≡ E)) ps
    → length (tails ps) ≡ length ps * 28
unfolding tails
length-tails [] E h = refl
length-tails (p ∷ ps) E (h, hs) =
    omega (arith, length-append (drop 4 p) (tails ps), length-drop 4 p, length-tails ps E hs)

-- The bytes behind the two headers.
unfoldable pub body : Event → List ℕ
body e =
    compacts 8 (fields64 e)
    ++ (compacts 4 (fields32 e) ++ (tails e.parents ++ (e.payload ++ e.sig)))

-- The two headers of an event: four-bit digits in one byte, two-bit digits in two.
pub record Headers (e : Event) (h3 h2 : List ℕ) : Type 0 where
  pub length3 : length h3 ≡ 1
  pub length2 : length h2 ≡ 2
  pub bytes3 : (k : ℕ) → get_or h3 k 0 < 256
  pub bytes2 : (k : ℕ) → get_or h2 k 0 < 256
  pub holds3 : Holds 4 h3 0 (e.version ∷ sizes 8 (fields64 e))
  pub holds2 : Holds 2 h2 0 (sizes 4 (fields32 e) ++ flags (fields_bool e))
  -- They are what the pushes make of zeros, so the fields determine them.
  pub run3 :
      push_each
        (record { array = at_offset 4 2 0; raw = replicate 1 0 })
        (e.version ∷ sizes 8 (fields64 e))
      ≡ some (record { array = at_offset 4 2 2; raw = h3 })
  pub run2 :
      push_each
        (record { array = at_offset 2 7 0; raw = replicate 2 0 })
        (sizes 4 (fields32 e) ++ flags (fields_bool e))
      ≡ some (record { array = at_offset 2 7 7; raw = h2 })

-- The bytes of the body that are signed.
unfoldable pub unsigned : Event → List ℕ
unsigned e = compacts 8 (fields64 e) ++ (compacts 4 (fields32 e) ++ (tails e.parents ++ e.payload))

pub body-unsigned : (e : Event) → body e ≡ unsigned e ++ e.sig
unfolding body unsigned
body-unsigned e = simp append_assoc
