-- ===== src/Vesa.antt =====
-- bootloader/x86_64/bios/stage2/src/vesa.rs: the choice of a display mode through the VESA BIOS
-- extension, with RealModePointer of bootloader/x86_64/bios/common/src/realmode.rs and the frame
-- buffer description of bootloader/api/src/lib.rs.
pub mod Best
use miniature_os.Base.{ℕ, zero, suc, ◌+◌, ◌-◌, ◌*◌, ◌/◌, ◌%◌, ◌^◌, List, Option, none, some}
use miniature_os.Base.{Bool, not, ◌&&◌, ◌||◌, replicate, bit_and, bit_or}
use miniature_os.Base.{Run, ok, panic, out_of_fuel, ◌>>=◌, ltb, ◌==◌, if◌then◌else◌, ◌<<<◌, ◌>>>◌}
use miniature_os.Base.{add, add32, mul32, mul64, u16_mod}
use miniature_os.Memory.Region.{PhysicalMemoryRegion, PhysicalMemoryRegionType}

-- `RealModePointer`: a segment and an offset in 32 bits.
abbrev pub segment : ℕ → ℕ
segment pointer = (pointer >>> 16) % u16_mod

abbrev pub offset : ℕ → ℕ
offset pointer = pointer % u16_mod

pub record VbeInfo : Type 0 where
  pub signature : List ℕ
  pub version : ℕ
  pub oem_string_ptr : ℕ
  pub capabilities : ℕ
  pub video_mode_array_pointer : ℕ
  pub total_memory : ℕ
  pub reserved : List ℕ

abbrev pub default_info : VbeInfo
default_info = record {
  signature = replicate 4 0;
  version = 0;
  oem_string_ptr = 0;
  capabilities = 0;
  video_mode_array_pointer = 0;
  total_memory = 0;
  reserved = replicate 492 0;
}

pub record VbeModeInfo : Type 0 where
  pub attributes : ℕ
  pub window_a : ℕ
  pub window_b : ℕ
  pub granularity : ℕ
  pub window_size : ℕ
  pub segment_a : ℕ
  pub segment_b : ℕ
  pub window_function_ptr : ℕ
  pub bytes_per_scanline : ℕ
  pub width : ℕ
  pub height : ℕ
  pub w_char : ℕ
  pub y_char : ℕ
  pub planes : ℕ
  pub bits_per_pixel : ℕ
  pub banks : ℕ
  pub memory_model : ℕ
  pub bank_size : ℕ
  pub image_pages : ℕ
  pub reserved_0 : ℕ
  pub red_mask : ℕ
  pub red_position : ℕ
  pub green_mask : ℕ
  pub green_position : ℕ
  pub blue_mask : ℕ
  pub blue_position : ℕ
  pub reserved_mask : ℕ
  pub reserved_position : ℕ
  pub direct_color_attributes : ℕ
  pub framebuffer : ℕ
  pub off_screen_memory_offset : ℕ
  pub off_screen_memory_size : ℕ
  pub reserved : List ℕ

abbrev pub default_mode_info : VbeModeInfo
default_mode_info = record {
  attributes = 0;
  window_a = 0;
  window_b = 0;
  granularity = 0;
  window_size = 0;
  segment_a = 0;
  segment_b = 0;
  window_function_ptr = 0;
  bytes_per_scanline = 0;
  width = 0;
  height = 0;
  w_char = 0;
  y_char = 0;
  planes = 0;
  bits_per_pixel = 0;
  banks = 0;
  memory_model = 0;
  bank_size = 0;
  image_pages = 0;
  reserved_0 = 0;
  red_mask = 0;
  red_position = 0;
  green_mask = 0;
  green_position = 0;
  blue_mask = 0;
  blue_position = 0;
  reserved_mask = 0;
  reserved_position = 0;
  direct_color_attributes = 0;
  framebuffer = 0;
  off_screen_memory_offset = 0;
  off_screen_memory_size = 0;
  reserved = replicate 206 0;
}

-- The BIOS: the words of memory, and what its calls give back in `ax`, with the block that a query
-- is given and fills in.
pub record VideoBios : Type 0 where
  pub word_at : ℕ → ℕ
  pub controller_info : VbeInfo → ℕ × VbeInfo
  pub mode_info : ℕ → VbeModeInfo → ℕ × VbeModeInfo
  pub set_video_mode : ℕ → ℕ

-- `Result<_, u16>`.
pub data Answer (A : Type 0) : Type 0 where
  done : A → Answer A
  failed : ℕ → Answer A

abbrev pub vesa_success : ℕ
vesa_success = 0x4f

abbrev pub checked : {A : Type 0} → ℕ → A → Answer A
checked ret x = if ret == vesa_success then done x else failed ret

pub data PixelFormat : Type 0 where
  rgb bgr : PixelFormat
  unknown : (red_position green_position blue_position : ℕ) → PixelFormat

pub record FramebufferInfo : Type 0 where
  pub region : PhysicalMemoryRegion
  pub width : ℕ
  pub height : ℕ
  pub bytes_per_pixel : ℕ
  pub stride : ℕ
  pub pixel_format : PixelFormat

unfoldable pub get_pixel_format : VbeModeInfo → PixelFormat
get_pixel_format info =
    if info.red_position == 0 && info.green_position == 8 && info.blue_position == 16
    then rgb
    else if info.red_position == 16 && info.green_position == 8 && info.blue_position == 0
    then bgr
    else unknown info.red_position info.green_position info.blue_position

-- A division by zero panics.
abbrev pub div : ℕ → ℕ → Run ℕ
div a b = if b == 0 then panic else ok (a / b)

unfoldable pub to_framebuffer_info : VbeModeInfo → Run FramebufferInfo
to_framebuffer_info info = do
  let bytes_per_pixel = info.bits_per_pixel / 8
  size ← mul64 info.height info.bytes_per_scanline
  stride ← div info.bytes_per_scanline bytes_per_pixel
  ok (record {
    region = record {
      start = info.framebuffer;
      size = size;
      typ = PhysicalMemoryRegionType.reserved;
    };
    width = info.width;
    height = info.height;
    bytes_per_pixel = bytes_per_pixel;
    stride = stride;
    pixel_format = get_pixel_format info;
  })

-- `abs_diff`.
abbrev pub abs_diff : ℕ → ℕ → ℕ
abs_diff a b = (a - b) + (b - a)

-- The best mode so far.
pub record Choice : Type 0 where
  pub best : Option ℕ
  pub best_pix_diff : ℕ
  pub best_depth_diff : ℕ

-- A round of the loop returns, or goes on.
pub data Round : Type 0 where
  stop : Option ℕ → Round
  next : Choice → Round

-- A graphics mode with a linear frame buffer, with packed pixels or direct colour.
unfoldable pub is_supported : VbeModeInfo → Bool
is_supported info =
    (bit_and info.attributes 0x90 == 0x90) && (info.memory_model == 4 || info.memory_model == 6)

module _ (bios : VideoBios) where
  unfoldable pub get_info : Answer VbeInfo
  get_info = checked (bios.controller_info default_info).0 (bios.controller_info default_info).1

  unfoldable pub get_mode_info : ℕ → Answer VbeModeInfo
  get_mode_info mode =
      checked (bios.mode_info mode default_mode_info).0 (bios.mode_info mode default_mode_info).1

  -- `set_mode`: with the linear frame buffer bit, and without the bit that keeps the screen.
  unfoldable pub set_mode : ℕ → Answer (Unit {0})
  set_mode mode =
      checked (bios.set_video_mode (bit_and (bit_or mode (1 <<< 14)) (u16_mod - 1 - 1 <<< 15))) tt

  -- `get_mode`: the mode at an index of the array, or its end.
  unfoldable pub get_mode : VbeInfo → ℕ → Run (Option ℕ)
  get_mode info i = do
    pointer ←
        add32 (segment info.video_mode_array_pointer <<< 4) (offset info.video_mode_array_pointer)
    let mode = bios.word_at (pointer + 2 * i)
    ok (if mode == 0xffff then none else some mode)

  module _ (width height depth : ℕ) where
    unfoldable pub is_exact : VbeModeInfo → Bool
    is_exact info = info.width == width && info.height == height && info.bits_per_pixel == depth

    -- The rest of the round, for a supported mode.
    unfoldable pub compare_mode : ℕ → VbeModeInfo → Choice → Run Round
    compare_mode mode info choice = if is_exact info then ok (stop (some mode)) else (do
      pixels ← mul32 info.width info.height
      wanted ← mul32 width height
      let pix_diff = abs_diff pixels wanted
      let depth_diff = abs_diff info.bits_per_pixel depth
      if ltb pix_diff choice.best_pix_diff
            || pix_diff == choice.best_pix_diff && ltb depth_diff choice.best_depth_diff
          then ok (
              next (record {
                best = some mode;
                best_pix_diff = pix_diff;
                best_depth_diff = depth_diff;
              }))
          else ok (next choice))

    -- The round from the answer to the query on; a failed query is skipped.
    unfoldable pub consider : ℕ → Answer VbeModeInfo → Choice → Run Round
    consider mode (failed code) choice = ok (next choice)
    consider mode (done info) choice =
        if is_supported info then compare_mode mode info choice else ok (next choice)

    unfoldable pub choose : VbeInfo → ℕ → Choice → Run Round
    choose vbe i choice = do
      found ← get_mode vbe i
      elim found [
        | none ↦ ok (stop choice.best)
        | some mode ↦ consider mode (get_mode_info mode) choice
      ]

    -- The loop over `0..`, an `i32`.
    unfoldable pub best_loop : ℕ → VbeInfo → ℕ → Choice → Run (Option ℕ)
    best_loop zero vbe i choice = out_of_fuel
    best_loop (suc fuel) vbe i choice = do
      i' ← add (2 ^ 31) i 1
      round ← choose vbe i choice
      elim round [ stop mode ↦ ok mode | next choice' ↦ best_loop fuel vbe i' choice' ]

    unfoldable pub get_best_mode : ℕ → VbeInfo → Run (Option ℕ)
    get_best_mode fuel vbe =
        best_loop fuel vbe 0
          (record { best = none; best_pix_diff = 2 ^ 32 - 1; best_depth_diff = 255 })
