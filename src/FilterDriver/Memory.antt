-- ===== src/FilterDriver/Memory.antt =====
-- Laws of the raw memory of FilterDriver/Driver.antt: copies, and what is read back.
use basic_windows_drivers.Base.{
  ℕ, zero, suc, ◌+◌, ◌-◌, ◌≤◌, ◌<◌, ◌≡◌, refl, ap₂, ◌⊎◌, inl, List, [], ◌∷◌, length, get_or, arith,
}
use basic_windows_drivers.FilterDriver.Driver.{move_memory, read_memory}

pub read_memory-eq :
    (a : ℕ) (xs : List ℕ) (bytes : ℕ → ℕ)
    → ((i j : ℕ) → j ≡ a + i → i < length xs → bytes j ≡ get_or xs i 0)
    → read_memory a (length xs) bytes ≡ xs
read_memory-eq a [] bytes h = refl
read_memory-eq a (x ∷ xs) bytes h =
    ap₂ ◌∷◌ (h 0 a (omega arith) (omega arith))
      (read_memory-eq (a + 1) xs bytes (λ i j e l. h (suc i) j (omega arith) (omega arith)))

pub read_memory-ext :
    (a n : ℕ) (bytes bytes' : ℕ → ℕ)
    → ((j : ℕ) → a ≤ j → j < a + n → bytes j ≡ bytes' j)
    → read_memory a n bytes ≡ read_memory a n bytes'
read_memory-ext a zero bytes bytes' h = refl
read_memory-ext a (suc n) bytes bytes' h =
    ap₂ ◌∷◌ (h a (omega arith) (omega arith))
      (read_memory-ext (a + 1) n bytes bytes' (λ j l u. h j (omega arith) (omega arith)))

pub move_memory-outside :
    (destination : ℕ) (source : List ℕ) (bytes : ℕ → ℕ) (a : ℕ)
    → (a < destination) ⊎ (destination + length source ≤ a)
    → move_memory destination source bytes a ≡ bytes a
move_memory-outside destination source bytes a h = ground arith

-- What was copied is read back.
pub read_memory-move_memory :
    (a : ℕ) (xs : List ℕ) (bytes : ℕ → ℕ) → read_memory a (length xs) (move_memory a xs bytes) ≡ xs
read_memory-move_memory a xs bytes =
    read_memory-eq a xs (move_memory a xs bytes) λ i j e l. inside i j e l
  where
    inside : (i j : ℕ) → j ≡ a + i → i < length xs → move_memory a xs bytes j ≡ get_or xs i 0
    inside i j e l = let e' : j - a ≡ i = omega arith in ground arith

-- A copy behind a region leaves the region as it is.
pub read_memory-before :
    (a n destination : ℕ) (source : List ℕ) (bytes : ℕ → ℕ)
    → a + n ≤ destination
    → read_memory a n (move_memory destination source bytes) ≡ read_memory a n bytes
read_memory-before a n destination source bytes h =
    read_memory-ext a n (move_memory destination source bytes) bytes
      (λ j l u. move_memory-outside destination source bytes j (inl (omega arith)))
