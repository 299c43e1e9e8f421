-- ===== src/Witness/Replies.antt =====
-- Concrete replies to the operations of client.c.
use dsproj.Common.{pos, neg, some, [], ◌∷◌, ◌≡◌, refl, arith}
use dsproj.Text.{codes, snprintf10}
use dsproj.Posix.{Stat, hostname_to_ip, send_to}
use dsproj.Reply.{sendresponse_access, sendresponse_getattr, sendresponse_readdir}
use dsproj.Reply.Files.{sendresponse_read}
use dsproj.Client.Status.{xmp_access}
use dsproj.Client.Attr.{my_getattr}
use dsproj.Client.Dir.{xmp_readdir}
use dsproj.Client.Files.{xmp_read}
use dsproj.RoundTrip.Exchange.{replies}
use dsproj.RoundTrip.Stale
use dsproj.RoundTrip.Attr
use dsproj.RoundTrip.Read
use dsproj.RoundTrip.Dir
use dsproj.Witness.{a_stat, a_recent_stat, an_entry, machine, plain, node_name, file, stored, reply}

my_getattr_time_cut_example :
    (st : Stat) × (my_getattr plain node_name
        (replies 3 (codes "0,0,33188,12,1,0,1,0,0,5,7,140000000,9,4096,1"))
        file
        0
      ≡ some (pos 0, some st))
    × (st.st_mtime ≡ pos 140000000)
unfolding hostname_to_ip send_to snprintf10 sendresponse_getattr
my_getattr_time_cut_example =
    Attr.my_getattr_time_cut plain (machine a_recent_stat []) node_name file node_name stored 3 0 0
      refl (omega arith) (reply (codes "0,0,33188,12,1,0,1,0,0,5,7,140000000,9,4096,1")) 1400000005
      (omega arith) refl (omega arith, omega arith) (λ h. cc) refl (omega arith) (omega arith)

xmp_read_partial_example :
    xmp_read plain node_name (replies 3 (codes "3,0,ab,c")) file (pos 4) (pos 0) [] 0
    ≡ some (pos 3, some (codes "ab"))
unfolding hostname_to_ip send_to snprintf10 sendresponse_read
xmp_read_partial_example =
    Read.xmp_read_partial plain (machine a_stat (codes "ab,c")) node_name file node_name stored 3 0
      0 refl (omega arith) (reply (codes "3,0,ab,c")) (pos 4) (pos 0) (pos 3) (pos 0) []
      (codes "ab") (codes "c") (omega arith) refl (λ h. cc) (λ h. cc) (omega arith)
      (omega arith, omega arith) refl (omega arith) refl
      (record {
        no_comma = (omega arith, (omega arith, tt));
        no_nul = (omega arith, (omega arith, tt));
        not_empty = λ h. cc;
      })
      (4, refl, omega arith)

xmp_readdir-sendresponse_readdir_example :
    xmp_readdir plain node_name (replies 3 (codes "0,a,8,12,")) file 0
    ≡ some (pos 0, some (record { name = codes "a"; st_ino = pos 8; st_mode = pos 49152 } ∷ []))
unfolding hostname_to_ip send_to snprintf10 sendresponse_readdir
xmp_readdir-sendresponse_readdir_example =
    Dir.xmp_readdir-sendresponse_readdir plain plain node_name file node_name stored 3 0 0 refl
      (omega arith) (reply (codes "0,a,8,12,")) (an_entry ∷ []) (omega arith) refl refl
      (omega arith)
      (
        record {
          name = record {
            no_comma = (omega arith, tt);
            no_nul = (omega arith, tt);
            not_empty = λ h. cc;
          };
          name_fits = omega arith;
          short_type = omega arith;
          short_ino = omega arith;
          ino = 12;
          ino_same = refl;
          ino_small = omega arith;
        },
        tt,
      )

xmp_access_stale_example :
    xmp_access plain node_name (replies 3 (codes "-1,2")) file (pos 4) (codes "0,0,7") 0
    ≡ some (neg (pos 27))
unfolding hostname_to_ip send_to snprintf10 sendresponse_access
xmp_access_stale_example =
    Stale.xmp_access_stale plain plain node_name file node_name stored 3 0 0 (reply (codes "-1,2"))
      (pos 4) (codes "0,0,7") 2 7 refl (omega arith) (omega arith) refl refl (omega arith)
      (omega arith) refl (omega arith)
