-- ===== src/Tests/Devices.antt =====
-- The choice of a display mode and the intrusive list, at concrete inputs.
use miniature_os.Base.{
  ℕ, ◌≡◌, inl, inr, refl, arith, ok, Option, List, [], ◌∷◌, Bool-cases, ◌==◌, if◌then◌else◌,
}
use miniature_os.Vesa.{
  VideoBios, VbeInfo, VbeModeInfo, default_info, default_mode_info, get_best_mode, get_mode_info,
}
use miniature_os.Vesa.Best.{IsBest, IsBlock, Usable, get_best_mode-IsBest}
use miniature_os.IntrusiveList.{State, new, new_node}
use miniature_os.IntrusiveList.Deque.{
  IsList, Op, add_front, add_back, take_front, take_back, all_on_list, all_on_sequence,
  all_on_list-sequence,
}

abbrev large : VbeModeInfo → VbeModeInfo
large block = record block {
  attributes = 0x9b;
  width = 1024;
  height = 768;
  bits_per_pixel = 32;
  memory_model = 6;
}

abbrev small : VbeModeInfo → VbeModeInfo
small block = record block {
  attributes = 0x9b;
  width = 640;
  height = 480;
  bits_per_pixel = 24;
  memory_model = 6;
}

-- The mode 0x118 is 1024 x 768, all others are 640 x 480.
abbrev two_modes : VideoBios
two_modes = record {
  word_at = λ at. if at == 0x90000 then 0x118 else if at == 0x90002 then 0x112 else 0xffff;
  controller_info = λ block. (0x4f, block);
  mode_info = λ mode block. if mode == 0x118 then (0x4f, large block) else (0x4f, small block);
  set_video_mode = λ mode. 0x4f;
}

abbrev vbe : VbeInfo
vbe = record default_info { video_mode_array_pointer = 0x90000000 }

two_modes-IsBlock : (m : ℕ) (info : VbeModeInfo) → Usable two_modes 800 600 32 m info → IsBlock info
unfolding get_mode_info
two_modes-IsBlock m info u = elim (Bool-cases (m == 0x118)) [
  | inl e ↦
      let k = rw e at (u.0) in
      let same : large default_mode_info ≡ info = cc in rw (← same) (omega arith)
  | inr e ↦
      let k = rw e at (u.0) in
      let same : small default_mode_info ≡ info = cc in rw (← same) (omega arith)
]

get_best_mode-IsBest_example :
    (r : Option ℕ) × (get_best_mode two_modes 800 600 32 3 vbe ≡ ok r)
    × IsBest two_modes 800 600 32 (0x118 ∷ 0x112 ∷ []) r
get_best_mode-IsBest_example =
    get_best_mode-IsBest two_modes 800 600 32 vbe (omega arith) (omega arith) two_modes-IsBlock
      (0x118 ∷ 0x112 ∷ []) 3 (refl, (omega arith), (refl, (omega arith), refl)) (omega arith)
      (omega arith)

abbrev no_nodes : State
no_nodes = (new, λ p. new_node)

no_nodes-IsList : IsList no_nodes []
no_nodes-IsList = record { head = refl; tail = refl; len = refl; linked = tt; distinct = tt }

abbrev some_ops : List Op
some_ops =
    add_back 0x10
    ∷ add_back 0x20
    ∷ add_front 0x30
    ∷ take_back
    ∷ take_front
    ∷ take_back
    ∷ take_front
    ∷ []

all_on_list-sequence_example :
    (s' : State) × (all_on_list some_ops no_nodes ≡ ok ((all_on_sequence some_ops []).0, s'))
    × IsList s' (all_on_sequence some_ops []).1
all_on_list-sequence_example =
    all_on_list-sequence some_ops [] no_nodes no_nodes-IsList (omega arith)
