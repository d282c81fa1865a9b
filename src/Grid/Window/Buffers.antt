-- ===== src/Grid/Window/Buffers.antt =====
-- qemu-devices/led/buffer.c: changing the size of a window that has its buffers.
use qemu_devices_and_drivers.Base.{
  ◌*◌, ◌^◌, ◌<◌, Bool, true, false, ◌&&◌, ◌==◌, ltb, if◌then◌else◌, none, some, done, fault, ◌≡◌,
  refl, Option-cases, inl, inr, arith, lt→ltb,
}
use qemu_devices_and_drivers.Grid.Render.{Dimensions}
use qemu_devices_and_drivers.Grid.Window.{
  alive, destroyed, mapped, RenderBuffer, Answers, created, render_buffer_destroy,
  create_and_map_shm, create_wl_buffers, is_mapped, render_buffer_resize,
}

-- The buffers and their pool exist.
pub record IsLive (b : RenderBuffer) : Type 0 where
  pub pool : b.wl_shm_pool ≡ alive
  pub first : b.wl_buffer0 ≡ alive
  pub second : b.wl_buffer1 ≡ alive

-- The shared memory can be made, and a pool of it.
abbrev pub works : Answers → Bool
works a = elim a.memfd [ none ↦ false | some fd ↦ a.truncates && (a.seals && (a.maps && a.pools)) ]

abbrev pub new_size : RenderBuffer → Dimensions → Dimensions
new_size b new = record {
  width = if ltb 0 new.width then new.width else b.dimensions.width;
  height = if ltb 0 new.height then new.height else b.dimensions.height;
}

-- The buffers after everything was made.
abbrev pub renewed : RenderBuffer → Dimensions → Answers → RenderBuffer
renewed b new a = record {
  shm_fd = a.memfd;
  shm_size = (new_size b new).height * ((new_size b new).width * 4) * 2;
  shmp = mapped;
  dimensions = new_size b new;
  wl_shm_pool = alive;
  wl_buffer0 = created a.buffers0;
  wl_buffer1 = created a.buffers1;
  busy0 = false;
  busy1 = false;
}

abbrev unchanged_size : RenderBuffer → Dimensions → Bool
unchanged_size b new =
    is_mapped b.shmp && (b.dimensions.width == new.width && b.dimensions.height == new.height)

-- A buffer whose objects were destroyed cannot be destroyed again.
destroy_twice : (b : RenderBuffer) → b.wl_buffer0 ≡ destroyed → render_buffer_destroy b ≡ fault
unfolding render_buffer_destroy
destroy_twice b h = rw h refl

-- When the size of a window with live buffers changes to one whose bytes an `int` counts, the old buffers are destroyed and new ones
-- are made. If the shared memory, its pool or a buffer cannot be made, the behaviour is undefined: the
-- cleanup destroys the old buffers a second time, or a listener is added to a buffer that was not
-- made.
pub render_buffer_resize_live :
    (b : RenderBuffer) (new : Dimensions) (a : Answers)
    → IsLive b
    → (is_mapped b.shmp && (b.dimensions.width == new.width && b.dimensions.height == new.height))
      ≡ false
    → (new_size b new).width * 4 < 2 ^ 31
    → (new_size b new).height * ((new_size b new).width * 4) * 2 < 2 ^ 31
    → render_buffer_resize b new a
      ≡ (if works a && (a.buffers0 && a.buffers1) then done (renewed b new a, true) else fault)
unfolding render_buffer_resize render_buffer_destroy create_and_map_shm create_wl_buffers
render_buffer_resize_live b new a live differs lw lh =
    rw
      (differs, live.first, live.second, live.pool, lt→ltb ((new_size b new).width * 4) (2 ^ 31) lw)
      (elim (Option-cases a.memfd) [
        | inl e ↦ rw e refl
        | inr (fd, e) ↦ rw (e, lt→ltb _ (2 ^ 31) lh) (ground arith)
      ])
