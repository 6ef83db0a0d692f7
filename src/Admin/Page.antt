-- ===== src/Admin/Page.antt =====
-- src/server/admin_server.cpp: the page of the dashboard.
use nexus_ftp_engine.Prelude.{◌/◌, ◌++◌, Bool, if◌then◌else◌}
use nexus_ftp_engine.Bytes.{Bytes, bytes}
use nexus_ftp_engine.Bytes.Decimal.{to_string}
use nexus_ftp_engine.Session.{ServerContext}

-- What every page begins with.
unfoldable pub page_head : Bytes
page_head =
    bytes
      "<!DOCTYPE html><html lang='en'><head><meta charset='UTF-8'><meta name='viewport' content='width=device-width, initial-scale=1.0'><title>NexusFTP Dashboard</title>"
    ++ bytes
        "<link href='https://fonts.googleapis.com/css2?family=Inter:wght@400;600;800&display=swap' rel='stylesheet'>"
    ++ bytes "<style>"
    ++ bytes
        ":root { --bg: #0f172a; --card-bg: rgba(30, 41, 59, 0.7); --text: #f8fafc; --accent: #38bdf8; --danger: #fb7185; --success: #34d399; }"
    ++ bytes
        "body { font-family: 'Inter', sans-serif; background: linear-gradient(135deg, #0f172a 0%, #1e1b4b 100%); color: var(--text); margin: 0; padding: 20px; min-height: 100vh; display: flex; align-items: center; justify-content: center; }"
    ++ bytes
        ".dashboard { background: var(--card-bg); backdrop-filter: blur(16px); -webkit-backdrop-filter: blur(16px); border: 1px solid rgba(255,255,255,0.1); border-radius: 24px; padding: 40px; width: 100%; max-width: 800px; box-shadow: 0 25px 50px -12px rgba(0,0,0,0.5); }"
    ++ bytes ".header { text-align: center; margin-bottom: 40px; }"
    ++ bytes
        "h1 { font-weight: 800; font-size: 2.5rem; margin: 0; background: linear-gradient(to right, var(--accent), #818cf8); -webkit-background-clip: text; -webkit-text-fill-color: transparent; letter-spacing: -1px; }"
    ++ bytes ".subtitle { color: #94a3b8; font-size: 1.1rem; margin-top: 8px; }"
    ++ bytes
        ".grid { display: grid; grid-template-columns: repeat(auto-fit, minmax(200px, 1fr)); gap: 20px; margin-bottom: 40px; }"
    ++ bytes
        ".stat-card { background: rgba(15, 23, 42, 0.6); border: 1px solid rgba(255,255,255,0.05); border-radius: 16px; padding: 24px; transition: all 0.3s cubic-bezier(0.4, 0, 0.2, 1); position: relative; overflow: hidden; }"
    ++ bytes
        ".stat-card:hover { transform: translateY(-5px); box-shadow: 0 10px 25px -5px rgba(0,0,0,0.5); border-color: rgba(255,255,255,0.15); }"
    ++ bytes
        ".stat-card::before { content: ''; position: absolute; top: 0; left: 0; width: 100%; height: 4px; background: var(--accent); opacity: 0.5; transition: opacity 0.3s; }"
    ++ bytes ".stat-card:hover::before { opacity: 1; }"
    ++ bytes ".stat-card.danger::before { background: var(--danger); }"
    ++ bytes ".stat-card.success::before { background: var(--success); }"
    ++ bytes
        ".stat-title { font-size: 0.875rem; color: #94a3b8; text-transform: uppercase; letter-spacing: 1px; font-weight: 600; margin-bottom: 12px; }"
    ++ bytes ".stat-value { font-size: 2.5rem; font-weight: 800; margin: 0; line-height: 1; }"
    ++ bytes ".actions { display: flex; gap: 16px; justify-content: center; flex-wrap: wrap; }"
    ++ bytes
        ".btn { font-family: 'Inter', sans-serif; padding: 14px 28px; border-radius: 12px; font-size: 1rem; font-weight: 600; cursor: pointer; text-decoration: none; transition: all 0.2s; display: inline-flex; align-items: center; gap: 8px; border: none; }"
    ++ bytes
        ".btn-primary { background: rgba(56, 189, 248, 0.1); color: var(--accent); border: 1px solid rgba(56, 189, 248, 0.2); }"
    ++ bytes
        ".btn-primary:hover { background: var(--accent); color: #0f172a; box-shadow: 0 0 20px rgba(56,189,248,0.4); transform: scale(1.05); }"
    ++ bytes
        ".btn-danger { background: rgba(251, 113, 133, 0.1); color: var(--danger); border: 1px solid rgba(251, 113, 133, 0.2); }"
    ++ bytes
        ".btn-danger:hover { background: var(--danger); color: #0f172a; box-shadow: 0 0 20px rgba(251,113,133,0.4); transform: scale(1.05); }"
    ++ bytes
        "@media (max-width: 600px) { .dashboard { padding: 24px; } h1 { font-size: 2rem; } .stat-value { font-size: 2rem; } .actions { flex-direction: column; } .btn { width: 100%; justify-content: center; } }"
    ++ bytes "</style></head><body>"
    ++ bytes "<div class='dashboard'>"
    ++ bytes
        "<div class='header'><h1>NexusFTP Engine</h1><div class='subtitle'>Live Real-Time Telemetry</div>"
    ++ bytes
        "<div style='margin-top:15px; padding:12px 20px; background:rgba(56,189,248,0.05); border-radius:12px; border:1px solid rgba(56,189,248,0.2); display:inline-block; text-align:center;'>"
    ++ bytes
        "<div style='font-size:0.85rem; color:#94a3b8; text-transform:uppercase; letter-spacing:1px; margin-bottom:6px;'>Test the Backend</div>"
    ++ bytes
        "<code style='color:var(--accent); font-family:monospace; font-size:1.1rem; padding:4px 8px; background:rgba(0,0,0,0.3); border-radius:6px;'>ftp 204.236.201.82</code>"
    ++ bytes
        "<div style='font-size:0.9rem; color:#f8fafc; margin-top:8px;'>User: <span style='color:var(--success); font-weight:600;'>guest</span> &nbsp;|&nbsp; Pass: <span style='color:var(--success); font-weight:600;'>guest</span></div>"
    ++ bytes "</div></div>"

-- The page of a shutdown with the password, and with another.
unfoldable pub stopped_text : Bytes
stopped_text =
    bytes
      "<div style='text-align:center; padding: 40px;'><h2 style='color:var(--success); font-size: 2rem;'>Authentication Successful</h2><p style='color:#94a3b8;'>Initiating graceful shutdown. Flushing sockets and killing thread pool safely.</p></div>"

unfoldable pub refused_text : Bytes
refused_text =
    bytes
      "<div style='text-align:center; padding: 40px;'><h2 style='color:var(--danger); font-size: 2rem;'>Authentication Failed</h2><p style='color:#94a3b8;'>Invalid or missing administrator password.</p><br><a href='/' class='btn btn-primary'>Return to Dashboard</a></div>"

-- The counters and the buttons.
unfoldable pub dashboard_text : ServerContext → Bytes
dashboard_text ctx =
    bytes "<div class='grid'>"
    ++ bytes
        "<div class='stat-card success'><div class='stat-title'>Active Sockets</div><div class='stat-value'>"
    ++ to_string ctx.active_connections
    ++ bytes "</div></div>"
    ++ bytes
        "<div class='stat-card'><div class='stat-title'>Total Connects</div><div class='stat-value'>"
    ++ to_string ctx.total_connections
    ++ bytes "</div></div>"
    ++ bytes
        "<div class='stat-card'><div class='stat-title'>Data Transferred</div><div class='stat-value'>"
    ++ to_string (ctx.total_bytes_transferred / 1024)
    ++ bytes "<span style='font-size:1rem; color:#94a3b8; margin-left:4px;'>KB</span></div></div>"
    ++ bytes
        "<div class='stat-card danger'><div class='stat-title'>Auth Blocks</div><div class='stat-value'>"
    ++ to_string ctx.auth.total_failed
    ++ bytes "</div></div>"
    ++ bytes "</div>"
    ++ bytes "<div class='actions'>"
    ++ bytes
        "<a href='/' class='btn btn-primary'><svg width='20' height='20' viewBox='0 0 24 24' fill='none' stroke='currentColor' stroke-width='2' stroke-linecap='round' stroke-linejoin='round'><path d='M21.5 2v6h-6M21.34 15.57a10 10 0 1 1-.59-9.21l5.67-5.67'/></svg> Refresh Data</a>"
    ++ bytes
        "<a href='#' class='btn btn-danger' onclick='var p = prompt(\"Enter Admin Password to Shutdown:\"); if(p) window.location.href=\"/stop?key=\"+p; return false;'><svg width='20' height='20' viewBox='0 0 24 24' fill='none' stroke='currentColor' stroke-width='2' stroke-linecap='round' stroke-linejoin='round'><path d='M18.36 6.64a9 9 0 1 1-12.73 0M12 2v10'/></svg> Shutdown Cluster</a>"
    ++ bytes "</div>"

-- The page, for a shutdown, a refused one, and any other request.
unfoldable pub page : Bool → Bool → ServerContext → Bytes
unfolding page_head stopped_text refused_text dashboard_text
page do_stop invalid_stop ctx =
    page_head
    ++ (if do_stop then stopped_text else if invalid_stop then refused_text else dashboard_text ctx)
    ++ bytes "</div></body></html>"
