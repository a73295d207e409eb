-- ===== src/BufferCache/Tests.antt =====
-- `buffer_cache.c` on a new cache, and one with a dirty block.
use nano_fs.Prelude.{◌≡◌, refl, ok, true, none, [], ◌∷◌}
use nano_fs.Os.Ram.{ram, ram-Laws}
use nano_fs.BufferCache.{
  BufferCache, buffer_cache_init, buffer_cache_sync, sync_list, sync_buffer, hash_lookup,
  find_block,
}
use nano_fs.BufferCache.Inv.{IsCoherent, view, init-IsCoherent}
use nano_fs.BufferCache.Fill.{added, added-IsCoherent}
use nano_fs.BufferCache.Sync.{Kept, buffer_cache_sync-Kept, file-buffer_cache_sync}

abbrev empty : BufferCache
empty = buffer_cache_init 4

abbrev one_dirty : BufferCache
one_dirty = added empty 1 (9 ∷ []) true

nothing_yet : hash_lookup empty 1 ≡ none
unfolding hash_lookup find_block buffer_cache_init
nothing_yet = refl

one_dirty-IsCoherent : IsCoherent ram one_dirty (λ b. [])
one_dirty-IsCoherent =
    added-IsCoherent ram empty (λ b. []) (init-IsCoherent ram 4 (λ b. [])) 1 (9 ∷ []) true
      nothing_yet (λ h. absurd (cc h))

synced : (buffer_cache_sync ram one_dirty (λ b. [])).0 ≡ ok tt
unfolding buffer_cache_sync sync_list sync_buffer buffer_cache_init
synced = refl

buffer_cache_sync-Kept_example :
    Kept ram ram-Laws one_dirty
      (λ b. [])
      (buffer_cache_sync ram one_dirty (λ b. [])).1
      (buffer_cache_sync ram one_dirty (λ b. [])).2
buffer_cache_sync-Kept_example =
    buffer_cache_sync-Kept ram ram-Laws one_dirty (λ b. []) one_dirty-IsCoherent

file-buffer_cache_sync_example :
    (buffer_cache_sync ram one_dirty (λ b. [])).2 1 ≡ view ram one_dirty (λ b. []) 1
file-buffer_cache_sync_example =
    file-buffer_cache_sync ram ram-Laws one_dirty (λ b. []) one_dirty-IsCoherent synced 1
