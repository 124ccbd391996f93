-- ===== src/Btier/Device/Disk.antt =====
-- What the journal relies on in a device that works: it reads back what was written.
use clab.Prelude.{
  ℕ, zero, suc, ◌+◌, ◌≤◌, ◌<◌, ◌≡◌, refl, ap, ap₂, ◌∙◌, inl, inr, ◌⊎◌, List, [], ◌∷◌, ◌++◌, arith,
  length, ◌==◌, if◌then◌else◌,
}
use clab.Btier.Device.{BlockDevice, ok, got}

-- `n` bytes from the offset `off` on.
abbrev pub window : ℕ → ℕ → (ℕ → ℕ) → List ℕ
window zero off f = []
window (suc n) off f = f off ∷ window n (suc off) f

-- The bytes after `bl` has been written at `off`.
abbrev pub overlay : List ℕ → ℕ → (ℕ → ℕ) → ℕ → ℕ
overlay [] off f i = f i
overlay (b ∷ bl) off f i = if i == off then b else overlay bl (suc off) f i

-- A device of `size` bytes on which `bytes` says what stands where.
pub record IsDisk {D : Type 0} (device : BlockDevice D) (size : ℕ) (bytes : D → ℕ → ℕ)
    : Type 0 where
  pub reads :
      (d : D) (off n : ℕ) → off + n ≤ size → device.read d off n ≡ got (window n off (bytes d))
  pub writes :
      (d : D) (off : ℕ) (bl : List ℕ) → off + length bl ≤ size → (device.write d off bl).1 ≡ ok
  pub written :
      (d : D) (off : ℕ) (bl : List ℕ) (i : ℕ)
      → off + length bl ≤ size
      → bytes (device.write d off bl).0 i ≡ overlay bl off (bytes d) i
  pub flushes : (d : D) → (device.flush d).1 ≡ ok
  pub flushed : (d : D) (i : ℕ) → bytes (device.flush d).0 i ≡ bytes d i

pub window-same :
    (n off : ℕ) (f g : ℕ → ℕ)
    → ((i : ℕ) → off ≤ i → i < off + n → f i ≡ g i)
    → window n off f ≡ window n off g
window-same zero off f g h = refl
window-same (suc n) off f g h =
    ap₂ (λ (x : ℕ) (y : List ℕ). x ∷ y) (h off (omega arith) (omega arith))
      (window-same n (suc off) f g (λ i a b. h i (omega arith) (omega arith)))

pub window-split :
    (m n off : ℕ) (f : ℕ → ℕ) → window (m + n) off f ≡ window m off f ++ window n (off + m) f
window-split zero n off f =
    ap (λ k. window k off f) (let e : 0 + n ≡ n = omega arith in e)
    ∙ ap (λ k. window n k f) (let e : off ≡ off + 0 = omega arith in e)
window-split (suc m) n off f =
    ap (λ k. window k off f) (let e : suc m + n ≡ suc (m + n) = omega arith in e)
    ∙ ap (λ l. f off ∷ l)
        (window-split m n (suc off) f
          ∙ ap (λ k. window m (suc off) f ++ window n k f)
              (let e : suc off + m ≡ off + suc m = omega arith in e))

pub length-window : (n off : ℕ) (f : ℕ → ℕ) → length (window n off f) ≡ n
length-window zero off f = refl
length-window (suc n) off f = ap suc (length-window n (suc off) f)

-- Outside what was written nothing changes.
pub overlay_outside :
    (bl : List ℕ) (off : ℕ) (f : ℕ → ℕ) (i : ℕ)
    → (i < off) ⊎ (off + length bl ≤ i)
    → overlay bl off f i ≡ f i
overlay_outside [] off f i h = refl
overlay_outside (b ∷ bl) off f i (inl before) =
    let rest = overlay_outside bl (suc off) f i (inl (omega arith)) in ground (arith, rest)
overlay_outside (b ∷ bl) off f i (inr behind) =
    let rest = overlay_outside bl (suc off) f i (inr (omega arith)) in ground (arith, rest)

-- What was written stands where it was written.
pub window-overlay :
    (bl : List ℕ) (off : ℕ) (f : ℕ → ℕ) → window (length bl) off (overlay bl off f) ≡ bl
window-overlay [] off f = refl
window-overlay (b ∷ bl) off f =
    ap₂ (λ (x : ℕ) (y : List ℕ). x ∷ y) (ground arith)
      (window-same (length bl) (suc off) (overlay (b ∷ bl) off f) (overlay bl (suc off) f)
          (λ i a z. ground arith)
        ∙ window-overlay bl (suc off) f)

pub window-overlay_outside :
    (n at : ℕ) (bl : List ℕ) (off : ℕ) (f : ℕ → ℕ)
    → (at + n ≤ off) ⊎ (off + length bl ≤ at)
    → window n at (overlay bl off f) ≡ window n at f
window-overlay_outside n at bl off f (inl before) =
    window-same n at (overlay bl off f) f (λ i a z. overlay_outside bl off f i (inl (omega arith)))
window-overlay_outside n at bl off f (inr behind) =
    window-same n at (overlay bl off f) f (λ i a z. overlay_outside bl off f i (inr (omega arith)))
