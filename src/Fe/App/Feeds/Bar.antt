-- ===== src/Fe/App/Feeds/Bar.antt =====
-- The class `Nav` of fe/src/navigation.ts beside the address bar.
