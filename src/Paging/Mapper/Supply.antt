-- ===== src/Paging/Mapper/Supply.antt =====
-- What the mapper relies on: the traits `FrameAllocator` and `PageTableFrameMapping`, with laws.
use miniature_os.Base.{ℕ, suc, ◌%◌, ◌^◌, ◌<◌, ◌≡◌, Option, none, some, Run, ok}
use miniature_os.Memory.Frame.{PhysicalFrame, size_4kib}
use miniature_os.Paging.Mapper.{FrameAllocator}

-- A frame that exists: aligned, below 2^48.
abbrev pub IsFrame : PhysicalFrame size_4kib → Type 0
IsFrame f = (f.address % 4096 ≡ 0) × (f.address < 2 ^ 48)

-- Frames have virtual addresses of their own.
pub record IsMapping (frame_to_virtual : PhysicalFrame size_4kib → Run ℕ) : Type 0 where
  pub total :
      (f : PhysicalFrame size_4kib)
      → IsFrame f
      → (t : ℕ) × (frame_to_virtual f ≡ ok t) × (t % 4096 ≡ 0)
  pub injective :
      (f g : PhysicalFrame size_4kib) (t : ℕ)
      → frame_to_virtual f ≡ ok t
      → frame_to_virtual g ≡ ok t
      → f.address ≡ g.address

module _ {A : Type 0} (fa : FrameAllocator A) (IsFree : A → ℕ → Type 0) where
  -- A call hands out a free frame, which is not free any more, or nothing if no frame is free.
  abbrev pub Handed : A → Option (PhysicalFrame size_4kib) → A → Type 0
  Handed a none a' = (x : ℕ) → ¬ IsFree a' x
  Handed a (some f) a' =
      IsFrame f
      × IsFree a f.address
      × (¬ IsFree a' f.address)
      × ((x : ℕ) → IsFree a' x → IsFree a x)

  -- With `IsReady k a`, the next `k` calls return.
  pub record IsAllocator (IsReady : ℕ → A → Type 0) : Type 0 where
    pub fewer : (k : ℕ) (a : A) → IsReady (suc k) a → IsReady k a
    pub call :
        (k : ℕ) (a : A)
        → IsReady (suc k) a
        → (r : Option (PhysicalFrame size_4kib)) × (a' : A) × (fa.allocate_frame a ≡ ok (r, a'))
          × IsReady k a'
          × Handed a r a'
