-- ===== src/Prepare.antt =====
-- scripts/prepare_version.py: which base version the next release cycle prepares. A text that BASE matches is
-- modelled as its three numbers; `current` is such a text, since read_base_version refuses others.
pub mod Versions
pub mod Choose
pub mod Search
pub mod Order
pub mod Next
pub mod PullRequests
