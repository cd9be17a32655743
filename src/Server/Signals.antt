-- ===== src/Server/Signals.antt =====
-- What a signal makes the advertisers do.
use corerad.Advertiser.Messages.{Advertiser}
