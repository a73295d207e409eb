-- ===== src/Resolve/Tests.antt =====
-- The path /a where the root is in the cache.
use nano_fs.Prelude.{true, [], ◌∷◌}
use nano_fs.BlockIo.Ram.{array_io}
use nano_fs.InodeCache.Tests.{with_inode, root}
use nano_fs.Resolve.{path_resolve}
use nano_fs.Resolve.Valid.{IsLoaded, path_resolve-IsLoaded}

path_resolve-IsLoaded_example :
    IsLoaded array_io
      (with_inode root)
      (path_resolve array_io 8 5 [] 1 1 true (47 ∷ 97 ∷ []) (with_inode root))
path_resolve-IsLoaded_example =
    path_resolve-IsLoaded array_io 8 5 [] 1 1 true (47 ∷ 97 ∷ []) (with_inode root) tt
