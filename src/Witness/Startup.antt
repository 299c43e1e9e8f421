-- ===== src/Witness/Startup.antt =====
-- Concrete starts of the processes, a message to a server, and a link.
use dsproj.Common.{pos, some, [], ◌∷◌, ◌≡◌, refl, arith, take, length, ℕ}
use dsproj.Text.{Bytes, codes, c_str}
use dsproj.Dispatch.{receivecommand_datanode}
use dsproj.Dispatch.Request.{literal-IsField, all_differ-Lacks}
use dsproj.Server.{receivecommand_server}
use dsproj.Server.Forwarded.{receivecommand_server-datanode}
use dsproj.Registry.{Lists}
use dsproj.Startup.{Echo}
use dsproj.Client.Local.{Local, xmp_readlink}
use dsproj.RoundTrip.Link.{xmp_readlink-target}
use dsproj.Witness.{plain, node_name, ok}
use dsproj.Witness.Route.{lists, client_host, client_host-IsField}

abbrev ip : Bytes
ip = codes "10.0.0.1"

abbrev at_once : Echo
at_once = λ d. some 3

abbrev no_files : Lists
no_files = record lists { files = [] }

receivecommand_server-datanode_example :
    receivecommand_server plain client_host (codes "unlink,/tmp/CS545/datanode/f") lists 0
    ≡ receivecommand_datanode plain node_name
        (codes "unlink,c1,unlink,/tmp/CS545/datanode/f")
        lists
        0
receivecommand_server-datanode_example =
    receivecommand_server-datanode plain node_name (codes "unlink") client_host (codes "unlink")
      (codes "/tmp/CS545/datanode/f") lists 0 (literal-IsField (codes "unlink") refl refl (λ e. cc))
      client_host-IsField (literal-IsField (codes "unlink") refl refl (λ e. cc)) refl refl
      (omega arith) (all_differ-Lacks 0 (codes "/tmp/CS545/datanode/f") refl) (omega arith)

-- A machine on which every path is a link to "/abc".
abbrev link_target : Bytes
link_target = codes "/abc"

abbrev links : Local ℕ
links = record {
  readlink = λ path bufsiz s. (
    record { res = pos (length (take bufsiz link_target)); errno = pos 0 },
    take bufsiz link_target,
    s,
  );
  symlink = λ from to s. (ok, s);
  link = λ from to s. (ok, s);
  lchown = λ path uid gid s. (ok, s);
  utimes = λ path t0 t1 s. (ok, s);
  lsetxattr = λ path name value size flags s. (ok, s);
  lgetxattr = λ path name size s. (ok, [], s);
  llistxattr = λ path size s. (ok, [], s);
  lremovexattr = λ path name s. (ok, s);
}

xmp_readlink-target_example :
    (buf' : Bytes) × (s' : ℕ) × (xmp_readlink links (codes "/l") (7 ∷ 7 ∷ 7 ∷ []) 3 0
      ≡ some (pos 0, buf', s'))
    × (length buf' ≡ 3)
    × (c_str buf' ≡ codes "/a")
xmp_readlink-target_example =
    xmp_readlink-target links (codes "/l") link_target (7 ∷ 7 ∷ 7 ∷ []) 3 0
      (λ bufsiz h. (refl, refl)) (all_differ-Lacks 0 link_target refl) refl (omega arith)
      (omega arith)
