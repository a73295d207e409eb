-- ===== src/Fuse/Tests.antt =====
-- Requests on a file system in memory that is mounted read-only.
use nano_fs.Prelude.{ℕ, refl, true, none, [], ◌∷◌, List}
use nano_fs.Types.Tests.{image}
use nano_fs.BlockIo.Ram.{array_io}
use nano_fs.InodeCache.Tests.{with_inode, root}
use nano_fs.Context.{FsContext}
use nano_fs.Context.Tests.{idle}
use nano_fs.Fuse.{Call}
use nano_fs.Fuse.Requests.{Request, getattr, mkdir, write, serve_all}
use nano_fs.Fuse.Requests.ReadOnly.{Refused, serve_all-Refused}
use nano_fs.Fuse.Quiet.{Unchanged}

abbrev mount : FsContext array_io idle
mount = record {
  icache = with_inode root;
  sb = image;
  journal = none;
  extent_alloc = none;
  root_inum = 1;
  read_only = true;
  read_count = 0;
  write_count = 0;
}

abbrev call : Call
call = record { depth = 8; now = 5; stack = λ i. []; uid = 1000; gid = 1000 }

-- mkdir /a, getattr /, and a write to the root.
abbrev requests : List (Call × Request ℕ)
requests =
    (call, mkdir (47 ∷ 97 ∷ []) 493) ∷ (call, getattr (47 ∷ [])) ∷ (call, write 1 0 (7 ∷ [])) ∷ []

serve_all-Refused_example :
    let out = serve_all array_io idle requests mount in
    Refused array_io idle requests out.0 × Unchanged array_io idle mount out.1
serve_all-Refused_example = serve_all-Refused array_io idle requests mount refl tt
