-- ===== src/Rpc/Error/Replay.antt =====
-- What a client can tell from a status.
use daichod.Base.{◌≡◌, refl}
use daichod.Rpc.Error.{ShimError, to_detail, from_detail}

pub from_detail-to_detail : (e : ShimError) → from_detail (to_detail e) ≡ e
unfolding from_detail to_detail
from_detail-to_detail e = refl
