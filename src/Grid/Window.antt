-- ===== src/Grid/Window.antt =====
-- qemu-devices/led/buffer.c and the window of wayland.c: the two buffers that the client shares with
-- the compositor, and when a frame is drawn. What the system calls and the compositor answer is the
-- argument `Answers`; adding a listener has no effect of its own. The sizes that the compositor asks for are not negative.
pub mod Buffers
pub mod Redraw
pub mod Stalls
use qemu_devices_and_drivers.Base.{
  ℕ, suc, ◌+◌, ◌*◌, ◌^◌, bit_and, bit_or, Bool, true, false, not, ◌&&◌, ◌||◌, ◌==◌, ltb,
  if◌then◌else◌, Option, none, some, List, [], ◌∷◌, ◌++◌, Outcome, done, fault, bind,
}
use qemu_devices_and_drivers.Words.{not32}
use qemu_devices_and_drivers.Words.Int.{checked_ℕ}
use qemu_devices_and_drivers.Grid.Render.{Frame, Dimensions, LedGrid, pixel_byte_width, render_draw}

-- A pointer to an object of libwayland: null, to a live object, or to one that was destroyed.
pub data Handle : Type 0 where
  null : Handle
  alive : Handle
  destroyed : Handle

-- `shmp`: NULL, a mapping, or MAP_FAILED.
pub data Mapping : Type 0 where
  unmapped : Mapping
  mapped : Mapping
  map_failed : Mapping

-- `struct render_buffer`. A descriptor of -1 is `none`.
pub record RenderBuffer : Type 0 where
  pub shm_fd : Option ℕ
  pub shm_size : ℕ
  pub shmp : Mapping
  pub dimensions : Dimensions
  pub wl_shm_pool : Handle
  pub wl_buffer0 : Handle
  pub wl_buffer1 : Handle
  pub busy0 : Bool
  pub busy1 : Bool

-- What memfd_create gives, and whether the later calls succeed.
pub record Answers : Type 0 where
  pub memfd : Option ℕ
  pub truncates : Bool
  pub seals : Bool
  pub maps : Bool
  pub pools : Bool
  pub buffers0 : Bool
  pub buffers1 : Bool
  pub zeroed : Frame

unfoldable pub render_buffer_init : RenderBuffer
render_buffer_init = record {
  shm_fd = some 0;
  shm_size = 0;
  shmp = unmapped;
  dimensions = record { width = 0; height = 0 };
  wl_shm_pool = null;
  wl_buffer0 = null;
  wl_buffer1 = null;
  busy0 = false;
  busy1 = false;
}

-- Which of the two buffers the compositor has released.
unfoldable pub wl_buffer_release_handler : RenderBuffer → ℕ → RenderBuffer
wl_buffer_release_handler b i =
    if i == 0 then record b { busy0 = false } else if i == 1 then record b { busy1 = false } else b

-- Destroying an object leaves the pointer, and destroying it again is undefined.
abbrev pub destroy_object : Handle → Outcome Handle
destroy_object null = done null
destroy_object alive = done destroyed
destroy_object destroyed = fault

abbrev pub above_stderr : Option ℕ → Bool
above_stderr none = false
above_stderr (some fd) = ltb 2 fd

unfoldable pub render_buffer_destroy : RenderBuffer → Outcome RenderBuffer
render_buffer_destroy b = bind (destroy_object b.wl_buffer0) (λ buffer0.
    bind (destroy_object b.wl_buffer1) (λ buffer1. bind (destroy_object b.wl_shm_pool) (λ pool.
      done (record b {
        wl_buffer0 = buffer0;
        wl_buffer1 = buffer1;
        wl_shm_pool = pool;
        shmp = unmapped;
        shm_fd = if above_stderr b.shm_fd then some 0 else b.shm_fd;
      }))))

-- The result -1 is `false`.
unfoldable pub create_and_map_shm : RenderBuffer → Answers → Outcome (RenderBuffer × Bool)
create_and_map_shm b a = bind (checked_ℕ (b.dimensions.width * pixel_byte_width)) (λ stride.
    elim a.memfd [
      | none ↦ done (record b { shm_fd = none }, false)
      | some fd ↦ bind (checked_ℕ (b.dimensions.height * stride * 2)) (λ size.
          let b' = record b { shm_fd = some fd; shm_size = size } in
          if not a.truncates
          then done (b', false)
          else if not a.seals
          then done (b', false)
          else if a.maps
          then done (record b' { shmp = mapped }, true)
          else done (record b' { shmp = map_failed }, false))
    ])

abbrev pub created : Bool → Handle
created true = alive
created false = null

-- A listener is added before the buffer is tested; it needs a buffer that exists.
abbrev pub wl_buffer_add_listener : Handle → Outcome Handle
wl_buffer_add_listener null = fault
wl_buffer_add_listener alive = done alive
wl_buffer_add_listener destroyed = fault

abbrev pub is_null : Handle → Bool
is_null null = true
is_null alive = false
is_null destroyed = false

unfoldable pub create_wl_buffers : RenderBuffer → Answers → Outcome (RenderBuffer × Bool)
create_wl_buffers b a =
    let buffer0 = created a.buffers0 in
    let buffer1 = created a.buffers1 in
    if a.pools
    then bind (wl_buffer_add_listener buffer0) (λ _. bind (wl_buffer_add_listener buffer1) (λ _.
      done (
        record b { wl_shm_pool = alive; wl_buffer0 = buffer0; wl_buffer1 = buffer1 },
        not (is_null buffer0 || is_null buffer1),
      )))
    else done (record b { wl_shm_pool = null }, false)

-- `cleanup`.
abbrev pub give_up : RenderBuffer → Outcome (RenderBuffer × Bool)
give_up b = bind (render_buffer_destroy b) (λ b'. done (b', false))

abbrev pub after_shm : Answers → RenderBuffer × Bool → Outcome (RenderBuffer × Bool)
after_shm a (b, false) = give_up b
after_shm a (b, true) =
    bind (create_wl_buffers b a) (λ made. if made.1 then done (made.0, true) else give_up made.0)

abbrev pub is_mapped : Mapping → Bool
is_mapped unmapped = false
is_mapped mapped = true
is_mapped map_failed = true

unfoldable pub render_buffer_resize :
    RenderBuffer → Dimensions → Answers → Outcome (RenderBuffer × Bool)
render_buffer_resize b new a =
    if is_mapped b.shmp && (b.dimensions.width == new.width && b.dimensions.height == new.height)
    then done (b, true)
    else bind (render_buffer_destroy b) (λ b'.
      bind
        (create_and_map_shm
          (record b' {
            busy0 = false;
            busy1 = false;
            dimensions = record {
              width = if ltb 0 new.width then new.width else b.dimensions.width;
              height = if ltb 0 new.height then new.height else b.dimensions.height;
            };
          })
          a)
        (after_shm a))

-- `enum window_flags`.
abbrev pub win_initialized : ℕ
win_initialized = 1

abbrev pub win_pending_resize : ℕ
win_pending_resize = 2

-- What the handlers use of `struct wayland_client`: the window, the buffers and their memory, the
-- grid, whether a frame callback is requested, and the buffers that were committed, oldest first.
pub record WlClient : Type 0 where
  pub flags : ℕ
  pub current_dim : Dimensions
  pub pending_dim : Dimensions
  pub render_buffer : RenderBuffer
  pub memory : Frame
  pub led_grid : LedGrid
  pub frame_callback : Bool
  pub committed : List ℕ
  pub shutting_down : Bool

unfoldable pub xdg_toplevel_configure_handler : WlClient → Dimensions → WlClient
xdg_toplevel_configure_handler c dim =
    if dim.width == 0 && dim.height == 0
    then record c {
      pending_dim = record { width = 650; height = 700 };
      flags = bit_or win_initialized win_pending_resize;
    }
    else if dim.width == c.current_dim.width && dim.height == c.current_dim.height
    then c
    else record c { pending_dim = dim; flags = bit_or c.flags win_pending_resize }

abbrev pub mark_busy : RenderBuffer → ℕ → RenderBuffer
mark_busy b i = if i == 0 then record b { busy0 = true } else record b { busy1 = true }

-- From the drawing on.
abbrev pub commit_frame : WlClient → Frame × Option ℕ → WlClient
commit_frame c (f, none) = c
commit_frame c (f, some buf_idx) = record c {
  memory = f;
  frame_callback = true;
  render_buffer = mark_busy c.render_buffer buf_idx;
  committed = c.committed ++ buf_idx ∷ [];
}

unfoldable pub draw_and_commit : WlClient → Outcome WlClient
draw_and_commit c =
    bind
      (render_draw (is_mapped c.render_buffer.shmp) c.render_buffer.busy0 c.render_buffer.busy1
        c.render_buffer.dimensions c.led_grid c.memory)
      (λ r. done (commit_frame c r))

-- A resize that makes a new mapping starts with zeroed memory.
abbrev pub resized : WlClient → Answers → RenderBuffer × Bool → Outcome WlClient
resized c a (b, false) = done (record c { render_buffer = b })
resized c a (b, true) =
    let same =
      is_mapped c.render_buffer.shmp
      && (c.render_buffer.dimensions.width == c.current_dim.width
          && c.render_buffer.dimensions.height == c.current_dim.height) in
    draw_and_commit (record c { render_buffer = b; memory = if same then c.memory else a.zeroed })

unfoldable pub wayland_client_redraw : WlClient → Answers → Outcome WlClient
wayland_client_redraw c a =
    if bit_and c.flags win_initialized == 0
    then done c
    else if bit_and c.flags win_pending_resize == 0
    then draw_and_commit c
    else let c' = record c {
      current_dim = c.pending_dim;
      flags = bit_and c.flags (not32 win_pending_resize);
    } in
      bind (render_buffer_resize c.render_buffer c.pending_dim a) (resized c' a)

unfoldable pub xdg_surface_configure_handler : WlClient → Answers → Outcome WlClient
xdg_surface_configure_handler = wayland_client_redraw

unfoldable pub wl_callback_done_handler : WlClient → Answers → Outcome WlClient
wl_callback_done_handler c a = wayland_client_redraw (record c { frame_callback = false }) a

-- What the compositor sends.
pub data WlEvent : Type 0 where
  toplevel_configure : Dimensions → WlEvent
  surface_configure : Answers → WlEvent
  frame_done : Answers → WlEvent
  buffer_release : ℕ → WlEvent
  toplevel_close : WlEvent
  display_error : WlEvent

unfoldable pub handle : WlClient → WlEvent → Outcome WlClient
handle c (toplevel_configure dim) = done (xdg_toplevel_configure_handler c dim)
handle c (surface_configure a) = xdg_surface_configure_handler c a
handle c (frame_done a) = wl_callback_done_handler c a
handle c (buffer_release i) =
    done (record c { render_buffer = wl_buffer_release_handler c.render_buffer i })
handle c toplevel_close = done (record c { shutting_down = true })
handle c display_error = done (record c { shutting_down = true })

unfoldable pub handle_all : WlClient → List WlEvent → Outcome WlClient
handle_all c [] = done c
handle_all c (e ∷ es) = bind (handle c e) (λ c'. handle_all c' es)
