-- ===== src/Grid/Window/Redraw.antt =====
-- qemu-devices/led/wayland.c: a frame of a window that is shown.
use qemu_devices_and_drivers.Base.{
  ℕ, bit_and, true, false, ◌==◌, Option, none, some, [], ◌∷◌, ◌++◌, done, bind, ◌≡◌, inl, inr, refl,
  ap, ◌∙◌, Option-cases,
}
use qemu_devices_and_drivers.Grid.Render.{get_front_buffer_index}
use qemu_devices_and_drivers.Grid.Render.Picture.{IsRoomy}
use qemu_devices_and_drivers.Grid.Render.Draw.{picture, render_draw-picture, render_draw_busy}
use qemu_devices_and_drivers.Grid.Window.{
  Answers, WlClient, win_initialized, win_pending_resize, is_mapped, mark_busy, commit_frame,
  draw_and_commit, wayland_client_redraw,
}

-- A window with its buffers, whose size is not about to change.
pub record IsShown (c : WlClient) : Type 0 where
  pub initialized : (bit_and c.flags win_initialized == 0) ≡ false
  pub settled : (bit_and c.flags win_pending_resize == 0) ≡ true
  pub has_memory : is_mapped c.render_buffer.shmp ≡ true

-- The client after a frame was committed in a buffer.
abbrev pub framed : (c : WlClient) → IsRoomy c.render_buffer.dimensions → ℕ → WlClient
framed c roomy idx = record c {
  memory = picture c.render_buffer.dimensions c.led_grid roomy idx c.memory;
  frame_callback = true;
  render_buffer = mark_busy c.render_buffer idx;
  committed = c.committed ++ idx ∷ [];
}

abbrev front : WlClient → Option ℕ
front c = get_front_buffer_index c.render_buffer.busy0 c.render_buffer.busy1

-- Redrawing a window that is initialized and mapped, with no resize pending, of 8 to 8192 pixels each
-- way with width / 16 ≤ height / 16 (rounded down): a buffer that the compositor does not hold gets the picture of
-- the grid, is committed and is held from then on, and the next frame is asked for. When the
-- compositor holds both, nothing changes.
pub wayland_client_redraw_lem :
    (c : WlClient) (a : Answers) (roomy : IsRoomy c.render_buffer.dimensions)
    → IsShown c
    → wayland_client_redraw c a ≡ done (elim (front c) [ none ↦ c | some idx ↦ framed c roomy idx ])
unfolding wayland_client_redraw draw_and_commit
wayland_client_redraw_lem c a roomy shown =
    rw (shown.initialized, shown.settled, shown.has_memory)
      (elim (Option-cases (front c)) [
        | inl e ↦
            ap (λ r. bind r (λ p. done (commit_frame c p)))
              (render_draw_busy c.render_buffer.busy0 c.render_buffer.busy1
                c.render_buffer.dimensions c.led_grid c.memory e)
            ∙ rw e refl
        | inr (idx, e) ↦
            ap (λ r. bind r (λ p. done (commit_frame c p)))
              (render_draw-picture c.render_buffer.dimensions c.led_grid roomy idx c.memory
                c.render_buffer.busy0 c.render_buffer.busy1 e)
            ∙ rw e refl
      ])
