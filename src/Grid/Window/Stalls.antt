-- ===== src/Grid/Window/Stalls.antt =====
-- qemu-devices/led/wayland.c: windows that do not draw.
use qemu_devices_and_drivers.Base.{
  ℕ, ◌*◌, bit_and, bit_or, Bool, true, false, ◌&&◌, ◌==◌, none, List, [], ◌∷◌, map, done, bind, ◌≡◌,
  refl, sym, ap, ◌∙◌, arith, Bool-cases, inl, inr,
}
use qemu_devices_and_drivers.Words.Bits.{bit_and-shl_one, bit-bit_or, bit-shl}
use qemu_devices_and_drivers.Grid.Render.{Dimensions, get_front_buffer_index}
use qemu_devices_and_drivers.Grid.Window.{
  RenderBuffer, Answers, WlClient, WlEvent, toplevel_configure, surface_configure, frame_done,
  buffer_release, toplevel_close, display_error, win_initialized, win_pending_resize,
  draw_and_commit, wl_buffer_release_handler, xdg_toplevel_configure_handler, wayland_client_redraw,
  xdg_surface_configure_handler, wl_callback_done_handler, handle, handle_all,
}
use qemu_devices_and_drivers.Grid.Render.Draw.{render_draw_busy}
use qemu_devices_and_drivers.Grid.Window.Redraw.{IsShown}

both_held :
    (busy0 busy1 : Bool) → busy0 ≡ true → busy1 ≡ true → get_front_buffer_index busy0 busy1 ≡ none
unfolding get_front_buffer_index
both_held busy0 busy1 h0 h1 = rw (h0, h1) refl

-- The compositor gives the window a size instead of leaving it to the client.
abbrev pub IsSized : WlEvent → Type 0
IsSized (toplevel_configure dim) = (dim.width == 0 && dim.height == 0) ≡ false
IsSized (surface_configure a) = Unit
IsSized (frame_done a) = Unit
IsSized (buffer_release i) = Unit
IsSized toplevel_close = Unit
IsSized display_error = Unit

abbrev pub AllSized : List WlEvent → Type 0
AllSized [] = Unit
AllSized (e ∷ es) = IsSized e × AllSized es

abbrev pub IsBlank : WlClient → Type 0
IsBlank c = bit_and c.flags win_initialized ≡ 0

resize_bit :
    (flags : ℕ)
    → bit_and (bit_or flags win_pending_resize) win_initialized ≡ bit_and flags win_initialized
resize_bit flags =
    bit_and-shl_one (bit_or flags 2) 0
    ∙ ap (λ b. b * 1) (ground (arith, bit-bit_or flags 2 0, bit-shl 1 1 0 (omega arith)))
    ∙ sym (bit_and-shl_one flags 0)

configure-IsBlank :
    (c : WlClient) (dim : Dimensions)
    → IsBlank c
    → (dim.width == 0 && dim.height == 0) ≡ false
    → IsBlank (xdg_toplevel_configure_handler c dim)
      × ((xdg_toplevel_configure_handler c dim).committed ≡ c.committed)
unfolding xdg_toplevel_configure_handler
configure-IsBlank c dim blank sized =
    elim (Bool-cases (dim.width == c.current_dim.width && dim.height == c.current_dim.height)) [
      | inl e ↦ rw (sized, e) (blank, refl)
      | inr e ↦ rw (sized, e) (resize_bit c.flags ∙ blank, refl)
    ]

-- One event of a window that was never left to choose its size.
handle-IsBlank :
    (c : WlClient) (e : WlEvent)
    → IsBlank c
    → IsSized e
    → (c' : WlClient) × (handle c e ≡ done c') × IsBlank c' × (c'.committed ≡ c.committed)
unfolding handle wayland_client_redraw xdg_surface_configure_handler wl_callback_done_handler
    xdg_toplevel_configure_handler
handle-IsBlank c (toplevel_configure dim) blank sized =
    let (still, same) = configure-IsBlank c dim blank sized in
    (xdg_toplevel_configure_handler c dim, refl, still, same)
handle-IsBlank c (surface_configure a) blank sized = (c, rw blank refl, blank, refl)
handle-IsBlank c (frame_done a) blank sized =
    (record c { frame_callback = false }, rw blank refl, blank, refl)
handle-IsBlank c (buffer_release i) blank sized =
    (record c { render_buffer = wl_buffer_release_handler c.render_buffer i }, refl, blank, refl)
handle-IsBlank c toplevel_close blank sized = (record c { shutting_down = true }, refl, blank, refl)
handle-IsBlank c display_error blank sized = (record c { shutting_down = true }, refl, blank, refl)

-- A window that the compositor sizes from the start is never initialized: whatever else happens, it
-- never draws a frame.
pub handle_all-IsBlank :
    (c : WlClient) (es : List WlEvent)
    → IsBlank c
    → AllSized es
    → (c' : WlClient) × (handle_all c es ≡ done c') × IsBlank c' × (c'.committed ≡ c.committed)
unfolding handle_all
handle_all-IsBlank c [] blank sized = (c, refl, blank, refl)
handle_all-IsBlank c (e ∷ es) blank sized =
    let (c₁, first, blank₁, same₁) = handle-IsBlank c e blank sized.0 in
    let (c₂, rest, blank₂, same₂) = handle_all-IsBlank c₁ es blank₁ sized.1 in
    (c₂, ap (λ r. bind r (λ c'. handle_all c' es)) first ∙ rest, blank₂, same₂ ∙ same₁)

-- Releases of buffers only clear their marks.
releases :
    (c : WlClient) (is : List ℕ)
    → (b : RenderBuffer) × (handle_all c (map buffer_release is)
        ≡ done (record c { render_buffer = b }))
unfolding handle_all handle
releases c [] = (c.render_buffer, refl)
releases c (i ∷ is) =
    let (b, run) =
      releases (record c { render_buffer = wl_buffer_release_handler c.render_buffer i }) is in
    (b, run)

-- When the compositor holds both buffers of an initialized and mapped window as a frame is done, and no
-- resize is pending, no frame is drawn and no further one is asked for. Releasing the buffers later, in any order, does not change that.
pub handle_all_stalled :
    (c : WlClient) (a : Answers) (is : List ℕ)
    → IsShown c
    → c.render_buffer.busy0 ≡ true
    → c.render_buffer.busy1 ≡ true
    → (c' : WlClient) × (handle_all c (frame_done a ∷ map buffer_release is) ≡ done c')
      × (c'.frame_callback ≡ false)
      × (c'.committed ≡ c.committed)
unfolding handle_all handle wl_callback_done_handler wayland_client_redraw draw_and_commit
handle_all_stalled c a is shown busy0 busy1 =
    let (b, run) = releases (record c { frame_callback = false }) is in
    (
      record c { frame_callback = false; render_buffer = b },
      rw
          (
            shown.initialized,
            shown.settled,
            shown.has_memory,
            render_draw_busy c.render_buffer.busy0 c.render_buffer.busy1 c.render_buffer.dimensions
                c.led_grid c.memory
                (both_held c.render_buffer.busy0 c.render_buffer.busy1 busy0 busy1),
          )
          run,
      refl,
      refl,
    )
